-- ===== src/Prelude/Text.antt =====
-- Texts that the code takes apart, as lists of code points. Lower-casing is that of the ASCII
-- letters; `trim` removes the white space of JavaScript.
use Prim.Native.Char.{code}
use Prim.Native.Nat.{ℕ, ◌+◌}
use Prim.Native.String.{String}
use mathlib.Core.Path.{◌≡◌, refl, sym, ◌∙◌}
use mathlib.Core.Logic.{◌↔◌, inl, inr}
use mathlib.Core.Bool.{Bool, true, false, ◌&&◌, ◌||◌}
use mathlib.Core.Option.{Option, none, some}
use mathlib.Core.List.{List, [], ◌∷◌, map, reverse, reverse-cons, reverse-reverse}
use native.Mathlib.Omega.{arith}
use semantask.Prelude.Tests.{Bool-cases, ◌==◌, leb, if◌then◌else◌}
use semantask.Prelude.Lists.{some_of, some_of-append}

abbrev pub Text : Type 0
Text = List ℕ

abbrev pub codes : String → Text
codes String.[] = []
codes (String.◌∷◌ c s) = code c ∷ codes s

-- `a === b`
abbrev pub text_eq : Text → Text → Bool
text_eq [] [] = true
text_eq (a ∷ s) (b ∷ t) = a == b && text_eq s t
text_eq _ _ = false

pub text_eq_iff : (s t : Text) → (text_eq s t ≡ true) ↔ (s ≡ t)
text_eq_iff [] [] = ground arith
text_eq_iff [] (b ∷ t) = ground arith
text_eq_iff (a ∷ s) [] = ground arith
text_eq_iff (a ∷ s) (b ∷ t) = ground (arith, text_eq_iff s t)

-- `list.includes(text)`
unfoldable pub has_text : Text → List Text → Bool
has_text t ts = some_of (λ u. text_eq u t) ts

lower_code : ℕ → ℕ
lower_code c = if leb b'A' c && leb c b'Z' then c + 32 else c

unfoldable pub lower : Text → Text
unfolding lower_code
lower s = map lower_code s

abbrev pub is_space : ℕ → Bool
is_space c =
    (leb 9 c && leb c 13)
    || c == 32
    || c == 160
    || c == 5760
    || (leb 8192 c && leb c 8202)
    || c == 8232
    || c == 8233
    || c == 8239
    || c == 8287
    || c == 12288
    || c == 65279

unfoldable pub trim_start : Text → Text
trim_start [] = []
trim_start (c ∷ s) = let rest = trim_start s in if is_space c then rest else c ∷ s

unfoldable pub trim : Text → Text
unfolding trim_start
trim s = reverse (trim_start (reverse (trim_start s)))

some_of-reverse : (p : ℕ → Bool) (s : Text) → some_of p (reverse s) ≡ some_of p s
some_of-reverse p [] = refl
some_of-reverse p (c ∷ s) =
    rw (reverse-cons c s, some_of-append p (reverse s) (c ∷ []))
      (ground (arith, some_of-reverse p s))

trim_start_plain : (s : Text) → some_of is_space s ≡ false → trim_start s ≡ s
unfolding trim_start
trim_start_plain [] h = refl
trim_start_plain (c ∷ s) h = ground arith

-- A text without spaces is not trimmed.
pub trim_plain : (s : Text) → some_of is_space s ≡ false → trim s ≡ s
unfolding trim
trim_plain s h = rw (
  trim_start_plain s h,
  trim_start_plain (reverse s) (some_of-reverse is_space s ∙ h),
  reverse-reverse s,
)

some_of-trim_start :
    (p : ℕ → Bool) (s : Text)
    → ((c : ℕ) → is_space c ≡ true → p c ≡ false)
    → some_of p (trim_start s) ≡ some_of p s
unfolding trim_start
some_of-trim_start p [] h = refl
some_of-trim_start p (c ∷ s) h = elim (Bool-cases (is_space c)) [
  | inl e ↦ rw e (some_of-trim_start p s h ∙ sym (rw (h c e) refl))
  | inr e ↦ rw e refl
]

-- What is no white space is in the trimmed text where it was in the text.
pub some_of-trim :
    (p : ℕ → Bool) (s : Text)
    → ((c : ℕ) → is_space c ≡ true → p c ≡ false)
    → some_of p (trim s) ≡ some_of p s
unfolding trim
some_of-trim p s h =
    some_of-reverse p (trim_start (reverse (trim_start s)))
    ∙ some_of-trim_start p (reverse (trim_start s)) h
    ∙ some_of-reverse p (trim_start s)
    ∙ some_of-trim_start p s h

-- `text.includes(c)` for one character.
unfoldable pub has_code : ℕ → Text → Bool
has_code c s = some_of (λ d. d == c) s

unfoldable pub starts : Text → Text → Bool
starts s [] = true
starts [] (b ∷ t) = false
starts (a ∷ s) (b ∷ t) = a == b && starts s t

-- `text.includes(part)`
unfoldable pub has_part : Text → Text → Bool
unfolding starts
has_part part [] = starts [] part
has_part part (c ∷ s) = starts (c ∷ s) part || has_part part s

-- What stands behind the last `c`, if there is one.
unfoldable pub after_last : ℕ → Text → Option Text
after_last c [] = none
after_last c (d ∷ s) = elim (after_last c s) [
  | some rest ↦ some rest
  | none ↦ if d == c then some s else none
]

-- A text that JavaScript reads as true.
abbrev pub is_filled : Text → Bool
is_filled [] = false
is_filled (c ∷ s) = true

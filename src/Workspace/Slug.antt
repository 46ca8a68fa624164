-- ===== src/Workspace/Slug.antt =====
-- The slug of an organization: `slugify` and the pattern that `createOrganization` tests.
use semantask.Prelude.{
  some_of, ℕ, leb, ◌==◌, Bool, true, false, not, ◌&&◌, ◌||◌, [], ◌∷◌, take, ◌≡◌, refl, arith,
}
use semantask.Prelude.Text.{Text, is_space, trim_plain, lower, trim, is_filled}

abbrev pub is_slug_letter : ℕ → Bool
is_slug_letter c = (leb b'a' c && leb c b'z') || (leb b'0' c && leb c b'9')

-- `replace(/[^a-z0-9]+/g, "-")`; the flag says that the character before was replaced.
unfoldable pub dashes : (replaced : Bool) → Text → Text
dashes replaced [] = []
dashes replaced (c ∷ s) = elim (is_slug_letter c) [
  | true ↦ c ∷ dashes false s
  | false ↦ elim replaced [ true ↦ dashes true s | false ↦ b'-' ∷ dashes true s ]
]

-- `replace(/^-+|-+$/g, "")`, at the two ends.
unfoldable pub strip_start : Text → Text
strip_start [] = []
strip_start (c ∷ s) = let rest = strip_start s in elim (c == b'-') [ true ↦ rest | false ↦ c ∷ s ]

unfoldable pub strip_end : Text → Text
strip_end [] = []
strip_end (c ∷ s) =
    let rest = strip_end s in
    elim (c == b'-' && not (is_filled rest)) [ true ↦ [] | false ↦ c ∷ rest ]

-- `slugify` before its `slice`.
unfoldable pub slug_words : Text → Text
unfolding lower trim dashes strip_start strip_end
slug_words name = strip_end (strip_start (dashes false (lower (trim name))))

unfoldable pub slugify : Text → Text
unfolding slug_words
slugify name = take 64 (slug_words name)

-- `/^[a-z0-9]+(?:-[a-z0-9]+)*$/`; the flag says that a letter or digit must follow.
unfoldable pub is_slug_from : (needs_letter : Bool) → Text → Bool
is_slug_from needs_letter [] = not needs_letter
is_slug_from needs_letter (c ∷ s) = elim (is_slug_letter c) [
  | true ↦ is_slug_from false s
  | false ↦ c == b'-' && (not needs_letter && is_slug_from true s)
]

unfoldable pub is_slug : Text → Bool
unfolding is_slug_from
is_slug s = is_slug_from true s

-- An ASCII letter of either case, or a digit.
abbrev pub is_letter_or_digit : ℕ → Bool
is_letter_or_digit c =
    (leb b'a' c && leb c b'z') || ((leb b'A' c && leb c b'Z') || (leb b'0' c && leb c b'9'))

lower-is_slug : (n : Bool) (s : Text) → is_slug_from n s ≡ true → lower s ≡ s
unfolding lower is_slug_from
lower-is_slug n [] h = refl
lower-is_slug n (c ∷ s) h = ground (arith, lower-is_slug false s, lower-is_slug true s)

spaces-is_slug : (n : Bool) (s : Text) → is_slug_from n s ≡ true → some_of is_space s ≡ false
unfolding is_slug_from
spaces-is_slug n [] h = refl
spaces-is_slug n (c ∷ s) h = ground (arith, spaces-is_slug false s, spaces-is_slug true s)

dashes-is_slug :
    (n : Bool) (s : Text)
    → is_slug_from n s ≡ true
    → (dashes n s ≡ s) × (strip_end s ≡ s) × (n ≡ true → is_filled s ≡ true)
unfolding is_slug_from dashes strip_end
dashes-is_slug n [] h = ground arith
dashes-is_slug n (c ∷ s) h = ground (arith, dashes-is_slug false s, dashes-is_slug true s)

starts-is_slug :
    (s : Text) → is_slug_from true s ≡ true → (dashes false s ≡ dashes true s) × (strip_start s ≡ s)
unfolding is_slug_from dashes strip_start
starts-is_slug [] h = ground arith
starts-is_slug (c ∷ s) h = ground arith

-- A valid slug is the slug of itself.
pub slugify-is_slug : (s : Text) → is_slug s ≡ true → slugify s ≡ take 64 s
unfolding is_slug slugify slug_words
slugify-is_slug s h = rw (
  trim_plain s (spaces-is_slug true s h),
  lower-is_slug true s h,
  (starts-is_slug s h).0,
  (dashes-is_slug true s h).0,
  (starts-is_slug s h).1,
  (dashes-is_slug true s h).1,
)

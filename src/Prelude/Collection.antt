-- ===== src/Prelude/Collection.antt =====
-- A collection of the database as the list of its documents: `findOne`, an update or a deletion of
-- the document that `findOne` returns, and a count.
use Prim.Native.Nat.{ℕ, ◌+◌, ◌≤◌}
use mathlib.Core.Path.{◌≡◌, refl}
use mathlib.Core.Bool.{Bool, true, false, not, ◌&&◌, ◌||◌}
use mathlib.Core.Option.{Option, none, some}
use mathlib.Core.List.{List, [], ◌∷◌, ◌++◌}
use native.Mathlib.Omega.{arith}
use semantask.Prelude.Lists.{length, keep, some_of}
use semantask.Prelude.Tests.{is_some}

module _ {ℓ} {A : Type ℓ} where
  abbrev pub find_first : (A → Bool) → List A → Option A
  find_first p [] = none
  find_first p (x ∷ xs) = elim (p x) [ true ↦ some x | false ↦ find_first p xs ]

  abbrev pub update_first : (A → Bool) → (A → A) → List A → List A
  update_first p f [] = []
  update_first p f (x ∷ xs) =
      let rest = update_first p f xs in elim (p x) [ true ↦ f x ∷ xs | false ↦ x ∷ rest ]

  abbrev pub delete_first : (A → Bool) → List A → List A
  delete_first p [] = []
  delete_first p (x ∷ xs) =
      let rest = delete_first p xs in elim (p x) [ true ↦ xs | false ↦ x ∷ rest ]

  abbrev pub count : (A → Bool) → List A → ℕ
  count p xs = length (keep p xs)

module _ {ℓ} {A : Type ℓ} where
  pub keep-append : (q : A → Bool) (xs ys : List A) → keep q (xs ++ ys) ≡ keep q xs ++ keep q ys
  keep-append q [] ys = refl
  keep-append q (x ∷ xs) ys = ground (arith, keep-append q xs ys)

  -- A document that does not count can be deleted.
  pub keep-delete_first :
      (p q : A → Bool) (xs : List A) {x : A}
      → find_first p xs ≡ some x
      → q x ≡ false
      → keep q (delete_first p xs) ≡ keep q xs
  keep-delete_first p q [] f n = ground arith
  keep-delete_first p q (d ∷ xs) {x} f n =
      ground (arith, λ (h : find_first p xs ≡ some x). keep-delete_first p q xs h n)

  -- A document that does not count can be changed to one that does not count.
  pub keep-update_first :
      (p q : A → Bool) (f : A → A) (xs : List A) {x : A}
      → find_first p xs ≡ some x
      → q x ≡ false
      → q (f x) ≡ false
      → keep q (update_first p f xs) ≡ keep q xs
  keep-update_first p q f [] e n m = ground arith
  keep-update_first p q f (d ∷ xs) {x} e n m =
      ground (arith, λ (h : find_first p xs ≡ some x). keep-update_first p q f xs h n m)

  pub find_first-append :
      (p : A → Bool) (xs : List A) (x : A)
      → find_first p xs ≡ none
      → p x ≡ true
      → find_first p (xs ++ (x ∷ [])) ≡ some x
  find_first-append p [] x h e = ground arith
  find_first-append p (d ∷ xs) x h e = ground (arith, find_first-append p xs x)

  pub find_first-holds :
      (p : A → Bool) (xs : List A) (x : A) → find_first p xs ≡ some x → p x ≡ true
  find_first-holds p [] x h = ground arith
  find_first-holds p (d ∷ xs) x h = ground (arith, find_first-holds p xs x)

  -- An update that keeps the filter is found where the document was.
  pub find_first-update_first :
      (p : A → Bool) (f : A → A) (xs : List A)
      → ((x : A) → p x ≡ true → p (f x) ≡ true)
      → find_first p (update_first p f xs)
        ≡ elim (find_first p xs) [ none ↦ none | some x ↦ some (f x) ]
  find_first-update_first p f [] h = refl
  find_first-update_first p f (d ∷ xs) h = ground (arith, h d, find_first-update_first p f xs h)

  pub count-append :
      (p : A → Bool) (xs : List A) (x : A)
      → count p (xs ++ (x ∷ [])) ≡ count p xs + elim (p x) [ true ↦ 1 | false ↦ 0 ]
  count-append p [] x = ground arith
  count-append p (d ∷ xs) x = ground (arith, count-append p xs x)

module _ {ℓ} {A : Type ℓ} where
  -- An update of a document that did not count, or of one that will not.
  pub some_of-update_first :
      (p q : A → Bool) (f : A → A) (xs : List A) (x : A)
      → find_first p xs ≡ some x
      → q x ≡ false
      → some_of q (update_first p f xs) ≡ (some_of q xs || q (f x))
  some_of-update_first p q f [] x e n = ground arith
  some_of-update_first p q f (d ∷ xs) x e n = ground (arith, some_of-update_first p q f xs x)

  count-zero : (q : A → Bool) (xs : List A) → count q xs ≡ 0 → some_of q xs ≡ false
  count-zero q [] h = refl
  count-zero q (d ∷ xs) h = ground (arith, count-zero q xs)

  pub some_of-count : (q : A → Bool) (xs : List A) → some_of q xs ≡ false → count q xs ≡ 0
  some_of-count q [] h = refl
  some_of-count q (d ∷ xs) h = ground (arith, some_of-count q xs)

  some_of-found :
      (p q : A → Bool) (xs : List A) (x : A)
      → find_first p xs ≡ some x
      → q x ≡ true
      → 1 ≤ count q xs
  some_of-found p q [] x e t = ground arith
  some_of-found p q (d ∷ xs) x e t = ground (arith, some_of-found p q xs x)

  pub some_of-removed :
      (p q : A → Bool) (f : A → A) (xs : List A) (x : A)
      → find_first p xs ≡ some x
      → q x ≡ true
      → q (f x) ≡ false
      → count q xs ≤ 1
      → some_of q (update_first p f xs) ≡ false
  some_of-removed p q f [] x e t n c = ground arith
  some_of-removed p q f (d ∷ xs) x e t n c =
      ground (arith, some_of-removed p q f xs x, count-zero q xs, some_of-found p q xs x)

  pub count-update_first :
      (p q : A → Bool) (f : A → A) (xs : List A) (x : A)
      → find_first p xs ≡ some x
      → q (f x) ≡ false
      → count q (update_first p f xs) ≤ count q xs
  count-update_first p q f [] x e n = ground arith
  count-update_first p q f (d ∷ xs) x e n = ground (arith, count-update_first p q f xs x)

  pub count-update_first_le :
      (p q : A → Bool) (f : A → A) (xs : List A) → count q (update_first p f xs) ≤ count q xs + 1
  count-update_first_le p q f [] = ground arith
  count-update_first_le p q f (d ∷ xs) = ground (arith, count-update_first_le p q f xs)

  -- An update that keeps what counts.
  pub count-update_first_same :
      (p q : A → Bool) (f : A → A) (xs : List A)
      → ((x : A) → q (f x) ≡ q x)
      → count q (update_first p f xs) ≡ count q xs
  count-update_first_same p q f [] h = refl
  count-update_first_same p q f (d ∷ xs) h = ground (arith, h d, count-update_first_same p q f xs h)

  pub find_first-some_of : (p : A → Bool) (xs : List A) → is_some (find_first p xs) ≡ some_of p xs
  find_first-some_of p [] = refl
  find_first-some_of p (d ∷ xs) = ground (arith, find_first-some_of p xs)

  pub some_of-or :
      (p q : A → Bool) (xs : List A) → some_of (λ x. p x || q x) xs ≡ (some_of p xs || some_of q xs)
  some_of-or p q [] = refl
  some_of-or p q (d ∷ xs) = ground (arith, some_of-or p q xs)

  pub some_of-and :
      (b : Bool) (q : A → Bool) (xs : List A) → some_of (λ x. b && q x) xs ≡ (b && some_of q xs)
  some_of-and b q [] = ground arith
  some_of-and b q (d ∷ xs) = ground (arith, some_of-and b q xs)

  pub some_of-cong :
      (p q : A → Bool) (xs : List A) → ((x : A) → p x ≡ q x) → some_of p xs ≡ some_of q xs
  some_of-cong p q [] h = refl
  some_of-cong p q (d ∷ xs) h = ground (arith, h d, some_of-cong p q xs h)

  -- What counts for q and is not in the way counts for p.
  pub count-below :
      (p q : A → Bool) (xs : List A)
      → some_of (λ x. q x && not (p x)) xs ≡ false
      → count q xs ≤ count p xs
  count-below p q [] h = ground arith
  count-below p q (d ∷ xs) h = ground (arith, count-below p q xs)

  -- An update elsewhere is not seen.
  pub find_first-update_other :
      (p q : A → Bool) (f : A → A) (xs : List A)
      → ((x : A) → p x ≡ true → (q x ≡ false) × (q (f x) ≡ false))
      → find_first q (update_first p f xs) ≡ find_first q xs
  find_first-update_other p q f [] h = refl
  find_first-update_other p q f (d ∷ xs) h = ground (arith, h d, find_first-update_other p q f xs h)

  pub count_pos : (p : A → Bool) (xs : List A) (x : A) → find_first p xs ≡ some x → 1 ≤ count p xs
  count_pos p [] x h = ground arith
  count_pos p (d ∷ xs) x h = ground (arith, count_pos p xs x)

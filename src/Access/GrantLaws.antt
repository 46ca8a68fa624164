-- ===== src/Access/GrantLaws.antt =====
-- What granting and revoking do to the set of granted keys.
use semantask.Prelude.{
  Bool, true, ◌&&◌, ◌||◌, none, some, String, List, [], ◌∷◌, ◌++◌, some_of-append, is_some, ◌≡◌,
  ◌⊎◌, inl, inr, refl, sym, arith, ap, ◌∙◌, Option-cases, Bool-cases, eq_iff,
}
use semantask.Prelude.Collection.{
  find_first, update_first, count, find_first-holds, count-append, some_of-update_first,
  some_of-count, count-update_first, count-update_first_le, count-update_first_same,
  find_first-some_of,
}
use semantask.Prelude.Result.{ok}
use semantask.Access.Grants.{ToolGrant, is_active}
use semantask.Access.GrantStore.{
  GrantKey, has_key, is_active_for, is_revoked_for, reactivated, new_grant, write_grant,
}
use semantask.Access.GrantView.{view, key_of, key_eq, key_eq_iff, has_id, IsValid, find-by_id}

holds-key :
    (key : GrantKey) (p : ToolGrant → Bool) (grants : List ToolGrant) (g : ToolGrant)
    → find_first (λ x. has_key key x && p x) grants ≡ some g
    → (key_of g ≡ key) × (p g ≡ true)
holds-key key p grants g h =
    ground
      (arith, find_first-holds (λ x. has_key key x && p x) grants g h, key_eq_iff (key_of g) key)

-- The three ways of a grant that succeeds.
abbrev Written :
    (grants grants' : List ToolGrant) → GrantKey → (by id : String) → ToolGrant → Type 0
Written grants grants' key by id g =
    ((find_first (is_active_for key) grants ≡ some g) × (grants' ≡ grants))
    ⊎ (((x : ToolGrant) × (find_first (is_active_for key) grants ≡ none)
          × (find_first (is_revoked_for key) grants ≡ some x)
          × (g ≡ reactivated by x)
          × (grants' ≡ update_first (has_id x.id) (reactivated by) grants))
        ⊎ ((find_first (is_active_for key) grants ≡ none)
            × (g ≡ new_grant key by id)
            × (grants' ≡ grants ++ (new_grant key by id ∷ []))))

written :
    (grants grants' : List ToolGrant) (key : GrantKey) (by id : String) (g : ToolGrant)
    → write_grant grants grants key by id ≡ ok (grants', g)
    → Written grants grants' key by id g
unfolding write_grant
written grants grants' key by id g h = elim (Option-cases (find_first (is_active_for key) grants)) [
  | inr (x, e) ↦ inl (ground arith)
  | inl n ↦ inr (elim (Option-cases (find_first (is_revoked_for key) grants)) [
    | inr (x, e) ↦ inl (x, n, e, ground arith, ground arith)
    | inl m ↦ inr (ground arith)
  ])
]

abbrev Views : (grants grants' : List ToolGrant) → GrantKey → ToolGrant → Type 0
Views grants grants' key g =
    (key_of g ≡ key)
    × (is_active g ≡ true)
    × ((k : GrantKey) → view grants' k ≡ (view grants k || key_eq key k))

-- A grant that succeeds adds its key, and hands out an active grant of it.
pub write-view :
    (grants grants' : List ToolGrant) (key : GrantKey) (by id : String) (g : ToolGrant)
    → IsValid grants
    → write_grant grants grants key by id ≡ ok (grants', g)
    → Views grants grants' key g
write-view grants grants' key by id g v h = elim (written grants grants' key by id g h) [
  | inl (e, s) ↦
      let (gk, ga) = holds-key key is_active grants g e in
      rw s (
        gk,
        ga,
        λ k. ground (arith, key_eq_iff key k, find_first-some_of (is_active_for key) grants),
      )
  | inr (inl (x, n, e, gx, s)) ↦
      let (xk, xr) = holds-key key (λ y. is_some y.revoked_at) grants x e in
      let f = find-by_id (is_revoked_for key) grants x (v.one_of_id x.id) e in
      rw (s, gx)
        (
          xk,
          refl,
          λ k.
              rw
                (
                  some_of-update_first (has_id x.id) (is_active_for k) (reactivated by) grants x f
                      (ground arith),
                  sym xk,
                )
                (ground arith),
        )
  | inr (inr (n, gx, s)) ↦
      rw (s, gx)
        (
          refl,
          refl,
          λ k.
              rw (some_of-append (is_active_for k) grants (new_grant key by id ∷ []))
                (ground arith),
        )
]

no_active :
    (grants : List ToolGrant) (key k : GrantKey)
    → find_first (is_active_for key) grants ≡ none
    → key ≡ k
    → count (is_active_for k) grants ≡ 0
no_active grants key k n e =
    some_of-count (is_active_for k) grants
      (rw (sym e) (ground (arith, find_first-some_of (is_active_for key) grants)))

pub write-IsValid :
    (grants grants' : List ToolGrant) (key : GrantKey) (by id : String) (g : ToolGrant)
    → IsValid grants
    → count (has_id id) grants ≡ 0
    → write_grant grants grants key by id ≡ ok (grants', g)
    → IsValid grants'
write-IsValid grants grants' key by id g v fresh h = elim (written grants grants' key by id g h) [
  | inl (e, s) ↦ rw s v
  | inr (inl (x, n, e, gx, s)) ↦
      let (xk, xr) = holds-key key (λ y. is_some y.revoked_at) grants x e in
      let f = find-by_id (is_revoked_for key) grants x (v.one_of_id x.id) e in
      rw s (record {
        one_active = λ k. elim (Bool-cases (key_eq key k)) [
          | inl q ↦ ground (
            arith,
            no_active grants key k n ((key_eq_iff key k).0 q),
            count-update_first_le (has_id x.id) (is_active_for k) (reactivated by) grants,
          )
          | inr q ↦ ground (
            arith,
            v.one_active k,
            count-update_first (has_id x.id) (is_active_for k) (reactivated by) grants x f
                (ground (arith, ap (λ y. key_eq y k) xk)),
          )
        ];
        one_of_id = λ i.
            rw
              (count-update_first_same (has_id x.id) (has_id i) (reactivated by) grants (λ y. refl))
              (v.one_of_id i);
      })
  | inr (inr (n, gx, s)) ↦ rw s (record {
    one_active = λ k. ground (
      arith,
      v.one_active k,
      key_eq_iff key k,
      no_active grants key k n,
      count-append (is_active_for k) grants (new_grant key by id),
    );
    one_of_id = λ i. ground (
      arith,
      v.one_of_id i,
      eq_iff id i,
      λ (e : id ≡ i). sym (ap (λ j. count (has_id j) grants) e) ∙ fresh,
      count-append (has_id i) grants (new_grant key by id),
    );
  })
]

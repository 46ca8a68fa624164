-- ===== src/Access/GrantRuns.antt =====
-- Runs of grants and revocations, against the set of granted keys.
use semantask.Prelude.{
  ℕ, none, present, Bool, false, not, ◌&&◌, ◌||◌, Option, some, String, List, [], if◌then◌else◌,
  ◌≡◌, inl, inr, refl, arith, ap, ◌∙◌, Option-cases, Bool-cases,
}
use semantask.Prelude.Collection.{
  find_first, update_first, count, some_of-update_first, some_of-removed, count-update_first,
  count-update_first_same,
}
use mathlib.Core.Path.{fun_ext}
use semantask.Prelude.Result.{ok}
use semantask.Access.Grants.{ToolGrant, is_active}
use semantask.Access.GrantStore.{GrantKey, is_active_for, write_grant, revoke_tool, revoked_grant}
use semantask.Access.GrantView.{view, key_of, key_eq, has_id, IsValid}
use semantask.Access.GrantLaws.{write-view, write-IsValid}
use semantask.Access.GrantStore.{GrantToolInput, grant_tool}

-- A revocation that succeeds takes the key of its grant away, if the grant was active.
pub revoke-view :
    (object_id : String → Option String) (grants grants' : List ToolGrant) (grant_id : String)
    → (id : String) (x : ToolGrant) (now : ℕ) (g : ToolGrant) → IsValid grants
    → object_id grant_id ≡ some id
    → find_first (has_id id) grants ≡ some x
    → revoke_tool object_id grants grant_id now ≡ ok (grants', g)
    → IsValid grants'
      × ((k : GrantKey)
          → view grants' k ≡ (view grants k && not (is_active x && key_eq (key_of x) k)))
unfolding revoke_tool
revoke-view object_id grants grants' grant_id id x now g v i e h =
    let s : grants' ≡ update_first (has_id id) (revoked_grant now) grants = ground arith in
    (
      rw s (record {
        one_active = λ k. ground (
          arith,
          v.one_active k,
          count-update_first (has_id id) (is_active_for k) (revoked_grant now) grants x e
              (ground arith),
        );
        one_of_id = λ j.
            rw
              (count-update_first_same (has_id id) (has_id j) (revoked_grant now) grants
                (λ y. refl))
              (v.one_of_id j);
      }),
      λ k. rw s (elim (Bool-cases (is_active_for k x)) [
        | inl q ↦
            rw
              (some_of-removed (has_id id) (is_active_for k) (revoked_grant now) grants x e q
                (ground arith) (v.one_active k))
              (ground arith)
        | inr q ↦
            rw (some_of-update_first (has_id id) (is_active_for k) (revoked_grant now) grants x e q)
              (ground arith)
      ]),
    )

-- The specification: a set of keys.
abbrev pub insert : GrantKey → (GrantKey → Bool) → GrantKey → Bool
insert key granted k = granted k || key_eq key k

abbrev pub remove : GrantKey → (GrantKey → Bool) → GrantKey → Bool
remove key granted k = granted k && not (key_eq key k)

-- The scope that a text asks for: a missing, null or empty one is none.
abbrev pub asked_scope : (String → Option String) → Option String → Option String
asked_scope object_id text = elim (present text) [ none ↦ none | some t ↦ object_id t ]

-- The key that an input asks for, for the user with an id.
abbrev pub asked : (String → Option String) → GrantToolInput → (user : String) → GrantKey
asked object_id input user = record {
  user_id = user;
  tool_name = input.tool_name;
  conversation_id = asked_scope object_id input.conversation_id;
  organization_id = asked_scope object_id input.organization_id;
}

-- What any calls that succeed make of the empty collection, with the set that they should make: a
-- grant adds the key that its input asks for, a revocation takes away that of the grant with its id.
pub data Run (object_id : String → Option String)
    : List ToolGrant → (GrantKey → Bool) → Type 0 where
  start : Run object_id [] (λ k. false)
  granted :
      {grants grants' : List ToolGrant} {set : GrantKey → Bool} {g : ToolGrant}
      → Run object_id grants set
      → (input : GrantToolInput) (new_id user : String) → count (has_id new_id) grants ≡ 0
      → object_id input.user_id ≡ some user
      → grant_tool object_id grants grants input new_id ≡ ok (grants', g)
      → Run object_id grants' (insert (asked object_id input user) set)
  revoked :
      {grants grants' : List ToolGrant} {set : GrantKey → Bool} {g x : ToolGrant}
      → Run object_id grants set
      → (grant_id id : String) (now : ℕ) → object_id grant_id ≡ some id
      → find_first (has_id id) grants ≡ some x
      → revoke_tool object_id grants grant_id now ≡ ok (grants', g)
      → Run object_id grants' (if is_active x then remove (key_of x) set else set)

grant_tool-write :
    (object_id : String → Option String) (grants grants' : List ToolGrant) (input : GrantToolInput)
    → (new_id user : String) (g : ToolGrant) → object_id input.user_id ≡ some user
    → grant_tool object_id grants grants input new_id ≡ ok (grants', g)
    → (by : String) × (write_grant grants grants (asked object_id input user) by new_id
        ≡ ok (grants', g))
unfolding grant_tool
grant_tool-write object_id grants grants' input new_id user g e h =
    elim (Option-cases (object_id input.granted_by)) [
      | inl f ↦ ground arith
      | inr (by, f) ↦ (by, ground arith)
    ]

-- After any calls that succeed, with ids that are new, no key has two active grants, no id two
-- grants, and the keys with an active grant are those that the inputs of the grants asked for, and
-- whose grant was not revoked since.
pub run-view :
    (object_id : String → Option String) {grants : List ToolGrant} {set : GrantKey → Bool}
    → Run object_id grants set
    → IsValid grants × (view grants ≡ set)
run-view object_id start =
    (record { one_active = λ k. ground arith; one_of_id = λ i. ground arith }, refl)
run-view object_id (granted {grants} {grants'} {set} {g} r input new_id user fresh u h) =
    let (v, e) = run-view object_id r in
    let (by, w) = grant_tool-write object_id grants grants' input new_id user g u h in
    let key = asked object_id input user in
    let (gk, ga, gv) = write-view grants grants' key by new_id g v w in
    (
      write-IsValid grants grants' key by new_id g v fresh w,
      fun_ext λ k. gv k ∙ ground (arith, ap (λ s. s k) e),
    )
run-view object_id (revoked {grants} {grants'} {set} {g} {x} r grant_id id now i f h) =
    let (v, e) = run-view object_id r in
    let (v', vy) = revoke-view object_id grants grants' grant_id id x now g v i f h in
    (v', fun_ext λ k. vy k ∙ ground (arith, ap (λ s. s k) e))

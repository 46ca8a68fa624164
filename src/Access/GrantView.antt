-- ===== src/Access/GrantView.antt =====
-- The collection of grants as the set of the keys that are granted.
use semantask.Prelude.{
  ◌≤◌, Bool, true, ◌&&◌, Option, none, some, String, str_eq, List, [], ◌∷◌, some_of, ◌≡◌, ◌↔◌,
  arith, eq_iff, eq_refl,
}
use semantask.Prelude.Text.{text_eq, text_eq_iff}
use semantask.Prelude.Collection.{find_first, count, find_first-some_of}
use semantask.Access.Grants.{ToolGrant, option_eq}
use semantask.Access.GrantStore.{GrantKey, is_active_for}

-- The keys that are granted.
abbrev pub view : List ToolGrant → GrantKey → Bool
view grants key = some_of (is_active_for key) grants

abbrev pub key_of : ToolGrant → GrantKey
key_of g = record {
  user_id = g.user_id;
  tool_name = g.tool_name;
  conversation_id = g.conversation_id;
  organization_id = g.organization_id;
}

abbrev pub key_eq : GrantKey → GrantKey → Bool
key_eq a b =
    str_eq a.user_id b.user_id
    && (text_eq a.tool_name b.tool_name
        && (option_eq a.conversation_id b.conversation_id
            && option_eq a.organization_id b.organization_id))

option_eq_iff : (a b : Option String) → (option_eq a b ≡ true) ↔ (a ≡ b)
option_eq_iff none none = ground arith
option_eq_iff none (some b) = ground arith
option_eq_iff (some a) none = ground arith
option_eq_iff (some a) (some b) = ground (arith, eq_iff a b)

pub key_eq_iff : (a b : GrantKey) → (key_eq a b ≡ true) ↔ (a ≡ b)
key_eq_iff a b = ground (
  arith,
  eq_iff a.user_id b.user_id,
  text_eq_iff a.tool_name b.tool_name,
  option_eq_iff a.conversation_id b.conversation_id,
  option_eq_iff a.organization_id b.organization_id,
)

abbrev pub has_id : (id : String) → ToolGrant → Bool
has_id id g = str_eq g.id id

-- At most one active grant of a key, and one grant of an id.
pub record IsValid (grants : List ToolGrant) : Type 0 where
  pub one_active : (key : GrantKey) → count (is_active_for key) grants ≤ 1
  pub one_of_id : (id : String) → count (has_id id) grants ≤ 1

count_pos :
    (grants : List ToolGrant) (id : String)
    → some_of (has_id id) grants ≡ true
    → 1 ≤ count (has_id id) grants
count_pos [] id h = ground arith
count_pos (d ∷ grants) id h = ground (arith, count_pos grants id)

-- The document that a search finds is the one with its id.
pub find-by_id :
    (p : ToolGrant → Bool) (grants : List ToolGrant) (g : ToolGrant)
    → count (has_id g.id) grants ≤ 1
    → find_first p grants ≡ some g
    → find_first (has_id g.id) grants ≡ some g
find-by_id p [] g c h = ground arith
find-by_id p (d ∷ grants) g c h = ground (
  arith,
  eq_refl g.id,
  find-by_id p grants g,
  find_first-some_of (has_id g.id) grants,
  count_pos grants g.id,
)

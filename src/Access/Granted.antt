-- ===== src/Access/Granted.antt =====
-- The list of granted tools agrees with the test of one tool.
use semantask.Prelude.{
  Bool, true, false, not, ◌&&◌, ◌||◌, Option, none, some, String, str_eq, List, [], ◌∷◌, ◌++◌, map,
  keep, some_of, some_of-append, present, ◌≡◌, refl, arith, Option-cases, Bool-cases, All, inl, inr,
  sym, ap,
}
use semantask.Prelude.Text.{Text, text_eq, text_eq_iff, has_text, lower}
use semantask.Prelude.Collection.{some_of-cong}
use semantask.Prelude.Result.{is_ok}
use semantask.Workspace.Policy.{Policies, resolve_organization_policy}
use semantask.Access.Grants.{
  ToolRbacMode, off, enforce, names_in_mode, get_tool_rbac_mode, high_risk_tools,
  is_high_risk_tool_name, ToolGrant, is_active, in_reach, id_of, deny_list, default_grants,
  has_tool_grant, assert_tool_grant, list_granted_tool_names,
}

has_text-lower :
    (ts : List Text) (name : Text)
    → All (λ t. lower t ≡ t) ts
    → has_text name ts ≡ true
    → lower name ≡ name
unfolding has_text
has_text-lower [] name h e = ground arith
has_text-lower (t ∷ ts) name h e = elim (Bool-cases (text_eq t name)) [
  | inl q ↦ rw (sym ((text_eq_iff t name).0 q)) h.0
  | inr q ↦ has_text-lower ts name h.1 (ground arith)
]

high_risk-lower : (name : Text) → is_high_risk_tool_name name ≡ true → lower name ≡ name
unfolding lower
high_risk-lower name h = has_text-lower high_risk_tools name (refl, (refl, (refl, tt))) h

has_text_nil : (name : Text) → has_text name [] ≡ false
unfolding has_text
has_text_nil name = refl

has_text-keep :
    (p : Text → Bool) (name : Text) (names : List Text)
    → has_text name (keep p names) ≡ (p name && has_text name names)
unfolding has_text
has_text-keep p name [] = ground arith
has_text-keep p name (n ∷ names) = ground (arith, text_eq_iff n name, has_text-keep p name names)

has_text-map :
    (p : ToolGrant → Bool) (name : Text) (grants : List ToolGrant)
    → has_text name (map (λ (g : ToolGrant). g.tool_name) (keep p grants))
      ≡ some_of (λ g. p g && text_eq g.tool_name name) grants
unfolding has_text
has_text-map p name [] = refl
has_text-map p name (g ∷ grants) = ground (arith, has_text-map p name grants)

has_text-append :
    (name : Text) (xs ys : List Text)
    → has_text name (xs ++ ys) ≡ (has_text name xs || has_text name ys)
unfolding has_text
has_text-append name xs ys = some_of-append (λ t. text_eq t name) xs ys

abbrev pub matches : (user : String) → (name : Text) → (c o : Option String) → ToolGrant → Bool
matches user name c o g =
    str_eq g.user_id user && (text_eq g.tool_name name && (is_active g && in_reach c o g))

names-granted :
    (p : Text → Bool) (defaults : List Text) (grants : List ToolGrant)
    → (user : String) (name : Text) (c o : Option String)
    → has_text name (
        keep p (
          defaults
          ++ map
              (λ (g : ToolGrant). g.tool_name)
              (keep (λ g. str_eq g.user_id user && (is_active g && in_reach c o g)) grants)))
      ≡ (p name && (has_text name defaults || some_of (matches user name c o) grants))
names-granted p defaults grants user name c o =
    let q : ToolGrant → Bool = λ g. str_eq g.user_id user && (is_active g && in_reach c o g) in
    let granted = map (λ (g : ToolGrant). g.tool_name) (keep q grants) in
    rw
      (
        has_text-keep p name (defaults ++ granted),
        has_text-append name defaults granted,
        has_text-map q name grants,
        some_of-cong (λ g. q g && text_eq g.tool_name name) (matches user name c o) grants
            (λ g. ground arith),
      )
      refl

module _ (object_id : String → Option String) (policies : Policies) where
  personal-deny :
      (organization_id : Option String) (name : Text)
      → present organization_id ≡ none
      → has_text name (deny_list (resolve_organization_policy object_id policies organization_id))
        ≡ false
  unfolding resolve_organization_policy has_text
  personal-deny organization_id name h = ground arith

  abbrev pub is_denied : (organization_id : Option String) → (name : Text) → Bool
  is_denied organization_id name =
      has_text name (deny_list (resolve_organization_policy object_id policies organization_id))

  -- What both calls come to, for a tool of high risk where the checks are enforced.
  abbrev pub granted :
      List ToolGrant
      → (user_id : String) → (name : Text) → (conversation_id organization_id : Option String)
      → Bool
  granted grants user_id name conversation_id organization_id = elim (object_id user_id) [
    | none ↦ false
    | some user ↦
        not (is_denied organization_id name)
        && (has_text name
              (default_grants (resolve_organization_policy object_id policies organization_id))
            || some_of
                (matches user name (id_of object_id conversation_id)
                  (id_of object_id organization_id))
                grants)
  ]

  pub has_tool_grant_lem :
      (grants : List ToolGrant) (user_id : String) (name : Text)
      → (conversation_id organization_id : Option String) → is_high_risk_tool_name name ≡ true
      → has_tool_grant object_id policies grants user_id name conversation_id organization_id
        ≡ granted grants user_id name conversation_id organization_id
  unfolding has_tool_grant
  has_tool_grant_lem grants user_id name conversation_id organization_id h =
      let policy = resolve_organization_policy object_id policies organization_id in
      ground (
        arith,
        ap (λ n. has_text n (deny_list policy)) (high_risk-lower name h),
        ap (λ n. has_text n (default_grants policy)) (high_risk-lower name h),
      )

  assert_tool_grant_lem :
      (rbac : Option Text) (grants : List ToolGrant) (user_id : String) (name : Text)
      → (conversation_id organization_id : Option String) → is_high_risk_tool_name name ≡ true
      → is_ok (
          assert_tool_grant object_id policies rbac grants user_id name conversation_id
            organization_id)
        ≡ (not (is_denied organization_id name) && elim (get_tool_rbac_mode rbac) [
          | off ↦ true
          | enforce ↦
              has_tool_grant object_id policies grants user_id name conversation_id organization_id
        ])
  unfolding assert_tool_grant
  assert_tool_grant_lem rbac grants user_id name conversation_id organization_id h =
      rw (high_risk-lower name h, h) (ground (arith, personal-deny organization_id name))

  abbrev granted_in_mode :
      ToolRbacMode
      → List ToolGrant
      → (user_id : String) → (name : Text) → (conversation_id organization_id : Option String)
      → Bool
  granted_in_mode off grants user_id name conversation_id organization_id =
      not (is_denied organization_id name)
  granted_in_mode enforce grants user_id name conversation_id organization_id =
      granted grants user_id name conversation_id organization_id

  names_in_mode_lem :
      (mode : ToolRbacMode) (grants : List ToolGrant) (user_id : String) (name : Text)
      → (conversation_id organization_id : Option String) → is_high_risk_tool_name name ≡ true
      → has_text name
          (names_in_mode object_id policies mode grants user_id conversation_id organization_id)
        ≡ granted_in_mode mode grants user_id name conversation_id organization_id
  names_in_mode_lem off grants user_id name conversation_id organization_id h =
      let policy = resolve_organization_policy object_id policies organization_id in
      let allowed : Text → Bool = λ t. not (has_text (lower t) (deny_list policy)) in
      rw (has_text-keep allowed name high_risk_tools, high_risk-lower name h, h) (ground arith)
  names_in_mode_lem enforce grants user_id name conversation_id organization_id h =
      let policy = resolve_organization_policy object_id policies organization_id in
      let allowed : Text → Bool = λ t. not (has_text (lower t) (deny_list policy)) in
      elim (Option-cases (object_id user_id)) [
        | inl e ↦ ground (arith, has_text_nil name)
        | inr (user, e) ↦ ground (
          arith,
          ap (λ n. has_text n (deny_list policy)) (high_risk-lower name h),
          names-granted allowed (default_grants policy) grants user name
              (id_of object_id conversation_id) (id_of object_id organization_id),
        )
      ]

  -- In every mode of the checks, a tool of high risk is in the list of granted tools exactly where
  -- its use is let through.
  pub list-assert :
      (rbac : Option Text) (grants : List ToolGrant) (user_id : String) (name : Text)
      → (conversation_id organization_id : Option String) → is_high_risk_tool_name name ≡ true
      → has_text name (
          list_granted_tool_names object_id policies rbac grants user_id conversation_id
            organization_id)
        ≡ is_ok (
            assert_tool_grant object_id policies rbac grants user_id name conversation_id
              organization_id)
  unfolding list_granted_tool_names
  list-assert rbac grants user_id name conversation_id organization_id h = ground (
    arith,
    names_in_mode_lem (get_tool_rbac_mode rbac) grants user_id name conversation_id organization_id
        h,
    assert_tool_grant_lem rbac grants user_id name conversation_id organization_id h,
    has_tool_grant_lem grants user_id name conversation_id organization_id h,
  )

-- ===== src/Access/Rules.antt =====
-- Who has access, exactly.
use semantask.Prelude.{
  Bool, true, false, ◌&&◌, ◌||◌, Option, none, some, String, is_some, present, ◌≡◌, ◌≢◌, ◌⊎◌, ◌↔◌,
  includes, str_eq, inl, inr, refl, ap, sym, ◌∙◌, or_else, Bool-cases, arith, eq_iff, Option-cases,
}
use mathlib.Core.Path.{subst}
use semantask.Prelude.Collection.{find_first}
use semantask.Prelude.Result.{ok, is_ok}
use semantask.Workspace.{
  Organization, OrganizationStatus, OrganizationMemberRole, Membership, Directory, is_membership_of,
  can_manage_members, get_organization_by_id, get_membership, assert_membership,
  assert_organization_active,
}
use semantask.Access.Conversation.{
  AuthorizationRole, ConversationAccessOptions, ConversationAccessRecord, ConversationAccess,
  Records, is_participant, can_admin_bypass, load_conversation_for_access,
  assert_org_conversation_access, can_access_conversation, assert_conversation_access,
  get_authorized_conversation, assert_organization_member_access,
}
use semantask.Access.Suggestion.{
  WorkSuggestionAccessTarget, can_access_work_suggestion, manages, can_mutate_work_suggestion,
}

some_same : {A : Type 0} → (a b : A) → some a ≡ some b → a ≡ b
some_same a b h = ap (λ o. or_else o a) h

managing_role :
    (role : OrganizationMemberRole)
    → can_manage_members role ≡ true
    → (role ≡ OrganizationMemberRole.owner) ⊎ (role ≡ OrganizationMemberRole.admin)
managing_role role h = ground arith

module _ (object_id : String → Option String) where
  -- The organization with the id is stored and not suspended.
  abbrev pub IsActive : Directory → (organization_id : String) → Type 0
  IsActive dir organization_id =
      (o : String) × (org : Organization) × (object_id organization_id ≡ some o)
      × (find_first (λ (x : Organization). str_eq x.id o) dir.organizations ≡ some org)
      × (org.status ≡ OrganizationStatus.active)

  -- The user has a membership of the organization, in a role that passes the test.
  abbrev pub HasMembership :
      Directory → (organization_id user_id : String) → (OrganizationMemberRole → Type 0) → Type 0
  HasMembership dir organization_id user_id Role =
      (o : String) × (u : String) × (m : Membership) × (object_id organization_id ≡ some o)
      × (object_id user_id ≡ some u)
      × (find_first (is_membership_of o u) dir.memberships ≡ some m)
      × Role m.role

  -- A participant, who in an organization's conversation has a membership of it while it is active.
  abbrev pub IsInsider : Records → (user_id : String) → ConversationAccessRecord → Type 0
  IsInsider records user_id c =
      (includes user_id c.participants ≡ true)
      × ((present c.organization_id ≡ none)
          ⊎ ((o : String) × (present c.organization_id ≡ some o)
              × IsActive records.directory o
              × HasMembership records.directory o user_id (λ role. Unit)))

  -- A platform admin who is no participant, and whose bypass is not refused.
  abbrev pub Bypasses :
      Option ConversationAccessOptions → (user_id : String) → ConversationAccessRecord → Type 0
  Bypasses options user_id c =
      (given : ConversationAccessOptions) × (options ≡ some given)
      × (given.user_role ≡ some AuthorizationRole.admin)
      × (given.allow_admin_bypass ≢ some false)
      × (includes user_id c.participants ≡ false)

  IsActive-iff :
      (dir : Directory) (o : String)
      → (is_ok (assert_organization_active object_id dir o) ≡ true) ↔ IsActive dir o
  unfolding assert_organization_active get_organization_by_id
  IsActive-iff dir o = (
    λ h. elim (Option-cases (object_id o)) [
      | inl n ↦ absurd (ground arith)
      | inr (k, e) ↦
          elim (Option-cases (find_first (λ (x : Organization). str_eq x.id k) dir.organizations)) [
            | inl n ↦ absurd (ground arith)
            | inr (org, f) ↦ (k, org, e, f, ground arith)
          ]
    ],
    λ (k, org, e, f, a). ground arith,
  )

  membership_iff :
      (dir : Directory) (o u : String)
      → (is_some (get_membership object_id dir o u) ≡ true) ↔ HasMembership dir o u (λ role. Unit)
  unfolding get_membership
  membership_iff dir o u = (
    λ h. elim (Option-cases (object_id o)) [
      | inl n ↦ absurd (ground arith)
      | inr (k, e) ↦ elim (Option-cases (object_id u)) [
        | inl n ↦ absurd (ground arith)
        | inr (j, f) ↦ elim (Option-cases (find_first (is_membership_of k j) dir.memberships)) [
          | inl n ↦ absurd (ground arith)
          | inr (m, g) ↦ (k, j, m, e, f, g, tt)
        ]
      ]
    ],
    λ (k, j, m, e, f, g, r). ground arith,
  )

  bypass_iff :
      (options : Option ConversationAccessOptions) (user_id : String) (c : ConversationAccessRecord)
      → (can_admin_bypass options c user_id ≡ true) ↔ Bypasses options user_id c
  unfolding can_admin_bypass
  bypass_iff none user_id c =
      (λ h. absurd (ground arith), λ (given, e, a, x, n). absurd (ground arith))
  bypass_iff (some options) user_id c = (
    λ h. (options, refl, ground arith, (λ r. ground arith), ground arith),
    λ (given, e, a, r, n).
        let same : options ≡ given = ground arith in
        elim (Option-cases options.allow_admin_bypass) [
          | inl k ↦ ground (arith, ap (λ (x : ConversationAccessOptions). x.user_role) same)
          | inr (b, k) ↦ elim (Bool-cases b) [
            | inl t ↦ ground (arith, ap (λ (x : ConversationAccessOptions). x.user_role) same)
            | inr t ↦ absurd (
                r (
                  ground
                    (arith, ap (λ (x : ConversationAccessOptions). x.allow_admin_bypass) same)))
          ]
        ],
  )

  -- A participant, who in an organization's conversation is a member of it while it is active.
  abbrev pub is_insider : Records → (user_id : String) → ConversationAccessRecord → Bool
  is_insider records user_id conversation =
      is_participant conversation user_id && elim (present conversation.organization_id) [
        | none ↦ true
        | some o ↦
            is_ok (assert_organization_active object_id records.directory o)
            && is_some (get_membership object_id records.directory o user_id)
      ]

  access-insider :
      (records : Records) (user_id conversation_id : String)
      → (options : Option ConversationAccessOptions)
      → can_access_conversation object_id records user_id conversation_id options ≡ (
          is_some (object_id user_id)
          && elim (load_conversation_for_access object_id records conversation_id) [
            | none ↦ false
            | some c ↦ is_insider records user_id c || can_admin_bypass options c user_id
          ])
  unfolding can_access_conversation assert_org_conversation_access
  access-insider records user_id conversation_id options = ground arith

  IsInsider-iff :
      (records : Records) (user_id : String) (c : ConversationAccessRecord)
      → (is_insider records user_id c ≡ true) ↔ IsInsider records user_id c
  IsInsider-iff records user_id c = elim (Option-cases (present c.organization_id)) [
    | inl n ↦ (λ h. (ground arith, inl n), λ (p, k). ground arith)
    | inr (o, e) ↦
        let a = IsActive-iff records.directory o in
        let m = membership_iff records.directory o user_id in
        (
          λ h. (ground arith, inr (o, e, a.0 (ground arith), m.0 (ground arith))),
          λ (p, k). elim k [
            | inl n ↦ absurd (ground arith)
            | inr (x, f, active, member) ↦
                let same : x ≡ o = ground arith in
                ground (
                  arith,
                  a.1 (subst (IsActive records.directory) same active),
                  m.1 (
                      subst (λ y. HasMembership records.directory y user_id (λ role. Unit)) same
                        member),
                )
          ],
        )
  ]

  -- A user has access exactly with a valid id, to a stored conversation, as a participant, in an
  -- organization's conversation also with a membership of it while it is not suspended, or as a
  -- platform admin who is no participant, unless the bypass is refused.
  pub can_access_conversation_lem :
      (records : Records) (user_id conversation_id : String)
      → (options : Option ConversationAccessOptions)
      → (can_access_conversation object_id records user_id conversation_id options ≡ true)
        ↔ (id : String) × (c : ConversationAccessRecord) × (is_some (object_id user_id) ≡ true)
          × (object_id conversation_id ≡ some id)
          × (records.conversations id ≡ some c)
          × (IsInsider records user_id c ⊎ Bypasses options user_id c)
  unfolding load_conversation_for_access
  can_access_conversation_lem records user_id conversation_id options =
      let r = access-insider records user_id conversation_id options in
      elim (Option-cases (object_id conversation_id)) [
        | inl n ↦ (λ h. absurd (ground (arith, r)), λ (id, c, v, e, f, k). absurd (ground arith))
        | inr (id, e) ↦ elim (Option-cases (records.conversations id)) [
          | inl n ↦ (
            λ h. absurd (ground (arith, r)),
            λ (x, c, v, g, f, k).
                absurd (ground (arith, ap records.conversations (some_same id x (sym e ∙ g)))),
          )
          | inr (c, f) ↦
              let insider = IsInsider-iff records user_id c in
              let bypass = bypass_iff options user_id c in
              (
                λ h. (
                  id,
                  c,
                  ground (arith, r),
                  e,
                  f,
                  elim (Bool-cases (is_insider records user_id c)) [
                    | inl k ↦ inl (insider.0 k)
                    | inr k ↦ inr (bypass.0 (ground (arith, r)))
                  ],
                ),
                λ (x, d, v, g, j, k).
                    let same : d ≡ c =
                      some_same d c
                        (sym j ∙ ap records.conversations (some_same x id (sym g ∙ e)) ∙ f) in
                    elim k [
                      | inl a ↦
                          ground (arith, r, insider.1 (subst (IsInsider records user_id) same a))
                      | inr a ↦
                          ground (arith, r, bypass.1 (subst (Bypasses options user_id) same a))
                    ],
              )
        ]
      ]

  -- The assertion succeeds exactly where the test holds, and hands out the conversation's ids.
  pub assert_conversation_access_lem :
      (records : Records) (user_id conversation_id : String)
      → (options : Option ConversationAccessOptions)
      → (is_ok (assert_conversation_access object_id records user_id conversation_id options)
          ≡ can_access_conversation object_id records user_id conversation_id options)
        × ((access : ConversationAccess)
            → assert_conversation_access object_id records user_id conversation_id options
              ≡ ok access
            → (c : ConversationAccessRecord) × (load_conversation_for_access object_id records
                  conversation_id
                ≡ some c)
              × (get_authorized_conversation object_id records user_id conversation_id options
                  ≡ ok c)
              × (access.participant_ids ≡ c.participants)
              × (access.organization_id ≡ present c.organization_id))
  unfolding assert_conversation_access can_access_conversation load_conversation_for_access
      get_authorized_conversation
  assert_conversation_access_lem records user_id conversation_id options = (
    ground arith,
    λ access h.
        elim (Option-cases (load_conversation_for_access object_id records conversation_id)) [
          | inl e ↦ ground arith
          | inr (c, e) ↦ (c, e, ground arith, ground arith, ground arith)
        ],
  )

  manages-member :
      (records : Records) (user_id o : String)
      → manages object_id records user_id o ≡ true
      → (is_some (object_id o) ≡ true)
        × (is_ok (assert_organization_member_access object_id records user_id o) ≡ true)
  unfolding manages assert_organization_active assert_organization_member_access assert_membership
      get_organization_by_id
  manages-member records user_id o h = ground arith

  -- Whoever may change a suggestion that names an organization may read it.
  pub mutate-access :
      (records : Records) (user_id : String) (suggestion : WorkSuggestionAccessTarget)
      → (options : Option ConversationAccessOptions) (o : String)
      → present suggestion.organization_id ≡ some o
      → can_mutate_work_suggestion object_id records user_id suggestion options ≡ true
      → can_access_work_suggestion object_id records user_id suggestion options ≡ true
  unfolding can_mutate_work_suggestion can_access_work_suggestion
  mutate-access records user_id suggestion options o e h = grind (arith, manages-member, eq_iff)

  -- An owner or admin of the organization while it is not suspended.
  abbrev pub Manages : Directory → (organization_id user_id : String) → Type 0
  Manages dir organization_id user_id =
      IsActive dir organization_id
      × HasMembership dir organization_id user_id
          (λ role. (role ≡ OrganizationMemberRole.owner) ⊎ (role ≡ OrganizationMemberRole.admin))

  manages_iff :
      (records : Records) (user_id o : String)
      → (manages object_id records user_id o ≡ true) ↔ Manages records.directory o user_id
  unfolding manages get_membership
  manages_iff records user_id o =
      let a = IsActive-iff records.directory o in
      let m = membership_iff records.directory o user_id in
      (
        λ h.
            let (k, j, x, e, f, g, u) = m.0 (ground arith) in
            (a.0 (ground arith), (k, j, x, e, f, g, managing_role x.role (ground arith))),
        λ (active, (k, j, x, e, f, g, role)). ground (arith, a.1 active),
      )

  -- A suggestion that names no organization, in an organization's conversation that the user has no
  -- access to, is not read by the user, and is changed by the user exactly as an owner or admin of
  -- the organization while it is not suspended.
  pub unlabelled_lem :
      (records : Records) (user_id : String) (suggestion : WorkSuggestionAccessTarget)
      → (options : Option ConversationAccessOptions) (c : ConversationAccessRecord) (o : String)
      → present suggestion.organization_id ≡ none
      → load_conversation_for_access object_id records suggestion.conversation_id ≡ some c
      → present c.organization_id ≡ some o
      → can_access_conversation object_id records user_id suggestion.conversation_id options ≡ false
      → (can_access_work_suggestion object_id records user_id suggestion options ≡ false)
        × (can_mutate_work_suggestion object_id records user_id suggestion options ≡ true
            ↔ Manages records.directory o user_id)
  unfolding can_mutate_work_suggestion can_access_work_suggestion load_conversation_for_access
  unlabelled_lem records user_id suggestion options c o e l p n =
      let m = manages_iff records user_id o in
      (
        ground arith,
        (
          λ h. m.0 (ground arith),
          λ (active, (k, j, x, q, v, g, role)).
              ground (arith, m.1 (active, (k, j, x, q, v, g, role))),
        ),
      )

-- ===== src/Auth/Rights.antt =====
-- Who is authorised.
use depsera.Prelude.{
  ◌∙◌, String, ◌≡◌, refl, sym, ap, subst, ◌↔◌, inl, inr, Bool, true, false, not, Option, none, some,
  List, [], ◌∷◌, map, keep, In, In-keep, In-of-keep, In-map, In-of-map, arith, eq_iff, ◌==◌,
  Option-cases, Bool-cases, String-cases,
}
use depsera.Types.{User, TeamMember, Service, Dependency}
use depsera.Auth.{
  granted, denied, Denial, canonical_lead_required, alias_lead_required, dependency_not_found,
  authorized, Stores, is_admin, is_lead, check_team_access, check_team_lead_access,
  check_service_team_lead_access, check_service_team_access, check_dependency_team_access,
  check_dependency_team_lead_access, unique, first_lead_access, lead_of_any, named,
  check_canonical_override_access, check_alias_access, check_admin_access,
}

-- The user leads the team that owns the service.
abbrev pub LeadsService : Stores → User → String → Type 0
LeadsService stores u service_id =
    (service : Service) × (membership : TeamMember) × (stores.find_service service_id
      ≡ some service)
    × (stores.get_membership service.team_id u.id ≡ some membership)
    × (is_lead membership.role ≡ true)

In-unique : (a : String) (ids : List String) → In a ids → In a (unique ids)
unfolding unique
In-unique a [] i = i
In-unique a (id ∷ ids) (inl e) = inl e
In-unique a (id ∷ ids) (inr i) = elim (String-cases a id) [
  | inl same ↦ inl (sym same)
  | inr other ↦ inr (
      In-of-keep a (λ j. not (j == id)) (unique ids) (In-unique a ids i)
        (ground (arith, eq_iff a id)))
]

In-of-unique : (a : String) (ids : List String) → In a (unique ids) → In a ids
unfolding unique
In-of-unique a [] i = i
In-of-unique a (id ∷ ids) (inl e) = inl e
In-of-unique a (id ∷ ids) (inr i) =
    inr (In-of-unique a ids (In-keep a (λ j. not (j == id)) (unique ids) i).0)

named_iff : (o : Option String) (name : String) → (named o name ≡ true) ↔ (o ≡ some name)
named_iff none name = (λ h. cc, λ h. cc)
named_iff (some n) name = (λ h. ap some ((eq_iff n name).0 h), λ h. ground (arith, eq_iff n name))

module _ (stores : Stores) (u : User) where
  service_lead_iff :
      (service_id : String)
      → is_admin u.role ≡ false
      → (authorized (check_service_team_lead_access stores u service_id) ≡ true)
        ↔ LeadsService stores u service_id
  unfolding check_service_team_lead_access check_team_lead_access
  service_lead_iff id plain = (
    λ h. elim (Option-cases (stores.find_service id)) [
      | inl missing ↦ absurd (ground arith)
      | inr (service, found) ↦ elim (Option-cases (stores.get_membership service.team_id u.id)) [
        | inl stranger ↦ absurd (ground arith)
        | inr (m, is_member) ↦ (service, m, found, is_member, ground arith)
      ]
    ],
    λ (service, m, found, is_member, leads). ground arith,
  )

  -- the loop finds a service that the user leads, if there is one
  first_lead_iff :
      (otherwise : Denial) (ids : List String)
      → (authorized (first_lead_access stores otherwise u ids) ≡ true) ↔ (
          (id : String) × In id ids
          × (authorized (check_service_team_lead_access stores u id) ≡ true))
  unfolding first_lead_access
  first_lead_iff otherwise [] = (λ h. absurd (cc), λ (id, i, h). elim i [ ])
  first_lead_iff otherwise (id ∷ ids) =
      let ih = first_lead_iff otherwise ids in
      (
        λ h. elim (Bool-cases (authorized (check_service_team_lead_access stores u id))) [
          | inl leads ↦ (id, inl refl, leads)
          | inr no_lead ↦ let (j, i, leads) = ih.0 (ground arith) in (j, inr i, leads)
        ],
        λ (j, i, leads). elim i [
          | inl same ↦
              ground (arith, ap (λ k. authorized (check_service_team_lead_access stores u k)) same)
          | inr later ↦ let rest = ih.1 (j, later, leads) in ground arith
        ],
      )

  -- The search for a lead succeeds, for a user who is no admin, exactly if the user leads the team
  -- of a service that owns a matching dependency.
  lead_of_any_iff :
      (otherwise : Denial) (matches : Dependency → Bool)
      → is_admin u.role ≡ false
      → (authorized (lead_of_any stores otherwise matches u) ≡ true) ↔ (
          (d : Dependency) × In d stores.all_dependencies
          × (matches d ≡ true)
          × LeadsService stores u d.service_id)
  unfolding lead_of_any
  lead_of_any_iff otherwise matches plain =
      let matching = keep matches stores.all_dependencies in
      let owners = map (λ (d : Dependency). d.service_id) matching in
      let search_iff = first_lead_iff otherwise (unique owners) in
      (
        λ h.
            let (id, i, leads) = search_iff.0 (rw plain at h) in
            let (d, di, e) =
              In-of-map (λ (d : Dependency). d.service_id) id matching (In-of-unique id owners i) in
            let kept = In-keep d matches stores.all_dependencies di in
            (
              d,
              kept.0,
              kept.1,
              subst (LeadsService stores u) (sym e) ((service_lead_iff id plain).0 leads),
            ),
        λ (d, di, m, leads). rw plain (
            search_iff.1 (
              d.service_id,
              In-unique d.service_id owners (
                  In-map (λ (d : Dependency). d.service_id) d matching
                    (In-of-keep d matches stores.all_dependencies di m)),
              (service_lead_iff d.service_id plain).1 leads,
            )),
      )

  -- A user who is no admin may manage a canonical override exactly if they lead the team of a
  -- service with a dependency of that canonical name, and an alias exactly if they lead the team of
  -- a service with a dependency that reports the alias as its name.
  pub shared_name_rights :
      (name : String)
      → is_admin u.role ≡ false
      → ((authorized (check_canonical_override_access stores u name) ≡ true) ↔ (
          (d : Dependency) × In d stores.all_dependencies
          × (d.canonical_name ≡ some name)
          × LeadsService stores u d.service_id))
        × ((authorized (check_alias_access stores u name) ≡ true) ↔ (
            (d : Dependency) × In d stores.all_dependencies
            × (d.name ≡ name)
            × LeadsService stores u d.service_id))
  unfolding check_canonical_override_access check_alias_access
  shared_name_rights name plain =
      let by_canonical =
        lead_of_any_iff canonical_lead_required (λ d. named d.canonical_name name) plain in
      let by_name = lead_of_any_iff alias_lead_required (λ d. d.name == name) plain in
      (
        (
          λ h.
              let (d, i, m, l) = by_canonical.0 h in
              (d, i, (named_iff d.canonical_name name).0 m, l),
          λ (d, i, m, l). by_canonical.1 (d, i, (named_iff d.canonical_name name).1 m, l),
        ),
        (
          λ h. let (d, i, m, l) = by_name.0 h in (d, i, (eq_iff d.name name).0 m, l),
          λ (d, i, m, l). by_name.1 (d, i, (eq_iff d.name name).1 m, l),
        ),
      )

-- An admin passes every check.
admin_rights :
    (stores : Stores) (u : User) (id : String)
    → is_admin u.role ≡ true
    → (check_team_access stores u id ≡ granted none)
      × (check_team_lead_access stores u id ≡ granted none)
      × (check_service_team_access stores u id ≡ granted none)
      × (check_service_team_lead_access stores u id ≡ granted none)
      × (check_dependency_team_access stores u id ≡ granted none)
      × (check_dependency_team_lead_access stores u id ≡ granted none)
      × (check_canonical_override_access stores u id ≡ granted none)
      × (check_alias_access stores u id ≡ granted none)
      × (check_admin_access u ≡ granted none)
unfolding check_team_access check_team_lead_access check_service_team_access
    check_service_team_lead_access check_dependency_team_access check_dependency_team_lead_access
    check_canonical_override_access check_alias_access check_admin_access
admin_rights stores u id boss = ground arith

lead_access_service :
    (stores : Stores) (u : User) (id : String) (d : Dependency)
    → is_admin u.role ≡ false
    → stores.find_dependency id ≡ some d
    → check_dependency_team_lead_access stores u id
      ≡ check_service_team_lead_access stores u d.service_id
unfolding check_dependency_team_lead_access check_service_team_lead_access
lead_access_service stores u id d plain found = ground arith

missing_dependency :
    (stores : Stores) (u : User) (id : String)
    → is_admin u.role ≡ false
    → stores.find_dependency id ≡ none
    → (check_dependency_team_access stores u id ≡ denied dependency_not_found)
      × (check_dependency_team_lead_access stores u id ≡ denied dependency_not_found)
unfolding check_dependency_team_access check_dependency_team_lead_access
missing_dependency stores u id plain missing = ground arith

lead_passes_access :
    (stores : Stores) (u : User) (id : String)
    → is_admin u.role ≡ false
    → authorized (check_dependency_team_lead_access stores u id) ≡ true
    → check_dependency_team_access stores u id ≡ check_dependency_team_lead_access stores u id
unfolding check_team_access check_team_lead_access check_dependency_team_access
    check_dependency_team_lead_access
lead_passes_access stores u id plain h = ground arith

-- For a user who is no admin, the lead check of a dependency passes exactly if the dependency exists
-- and the user leads the team of its service.
pub dependency_rights :
    (stores : Stores) (u : User) (id : String)
    → is_admin u.role ≡ false
    → (authorized (check_dependency_team_lead_access stores u id) ≡ true) ↔ (
        (d : Dependency) × (stores.find_dependency id ≡ some d)
        × LeadsService stores u d.service_id)
dependency_rights stores u id plain = (
  λ h. elim (Option-cases (stores.find_dependency id)) [
    | inl missing ↦ absurd (ground (arith, missing_dependency stores u id plain missing))
    | inr (d, found) ↦ (
      d,
      found,
      (service_lead_iff stores u d.service_id plain).0
          (rw (lead_access_service stores u id d plain found) at h),
    )
  ],
  λ (d, found, leads).
      rw (lead_access_service stores u id d plain found)
        ((service_lead_iff stores u d.service_id plain).1 leads),
)

-- The user is a member of the team that owns the service.
abbrev pub MemberOfService : Stores → User → String → Type 0
MemberOfService stores u service_id =
    (service : Service) × (membership : TeamMember) × (stores.find_service service_id
      ≡ some service)
    × (stores.get_membership service.team_id u.id ≡ some membership)

team_access_iff :
    (stores : Stores) (u : User) (team_id : String)
    → is_admin u.role ≡ false
    → (authorized (check_team_access stores u team_id) ≡ true)
      ↔ ((m : TeamMember) × (stores.get_membership team_id u.id ≡ some m))
unfolding check_team_access
team_access_iff stores u team_id plain = (
  λ h. elim (Option-cases (stores.get_membership team_id u.id)) [
    | inl outside ↦ absurd (ground (arith, outside, h, plain))
    | inr (m, e) ↦ (m, e)
  ],
  λ (m, e). ground (arith, e, plain),
)

access_of_service :
    (stores : Stores) (u : User) (id : String) (d : Dependency) (service : Service)
    → is_admin u.role ≡ false
    → stores.find_dependency id ≡ some d
    → stores.find_service d.service_id ≡ some service
    → check_dependency_team_access stores u id ≡ check_team_access stores u service.team_id
unfolding check_dependency_team_access
access_of_service stores u id d service plain found owned = ground (arith, plain, found, owned)

access_needs_rows :
    (stores : Stores) (u : User) (id : String)
    → is_admin u.role ≡ false
    → authorized (check_dependency_team_access stores u id) ≡ true
    → (d : Dependency) × (service : Service) × (stores.find_dependency id ≡ some d)
      × (stores.find_service d.service_id ≡ some service)
unfolding check_dependency_team_access
access_needs_rows stores u id plain h = elim (Option-cases (stores.find_dependency id)) [
  | inl missing ↦ absurd (ground (arith, missing, plain, h))
  | inr (d, found) ↦ elim (Option-cases (stores.find_service d.service_id)) [
    | inl orphan ↦ absurd (ground (arith, found, orphan, plain, h))
    | inr (service, owned) ↦ (d, service, found, owned)
  ]
]

-- For a user who is no admin, the access check of a dependency passes exactly if the dependency and
-- its service exist and the user is a member of the service's team, with whatever role; and where the
-- lead check passes, the access check gives the same answer.
pub dependency_access_rights :
    (stores : Stores) (u : User) (id : String)
    → is_admin u.role ≡ false
    → ((authorized (check_dependency_team_access stores u id) ≡ true) ↔ (
        (d : Dependency) × (stores.find_dependency id ≡ some d)
        × MemberOfService stores u d.service_id))
      × (authorized (check_dependency_team_lead_access stores u id) ≡ true
          → check_dependency_team_access stores u id
            ≡ check_dependency_team_lead_access stores u id)
dependency_access_rights stores u id plain = (
  (
    λ h.
        let (d, service, found, owned) = access_needs_rows stores u id plain h in
        let passes =
          sym (ap authorized (access_of_service stores u id d service plain found owned)) ∙ h in
        let (m, member) = (team_access_iff stores u service.team_id plain).0 passes in
        (d, found, (service, m, owned, member)),
    λ (d, found, (service, m, owned, member)).
        ap authorized (access_of_service stores u id d service plain found owned)
        ∙ (team_access_iff stores u service.team_id plain).1 (m, member),
  ),
  lead_passes_access stores u id plain,
)

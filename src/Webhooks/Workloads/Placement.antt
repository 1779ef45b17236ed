-- ===== src/Webhooks/Workloads/Placement.antt =====
-- Where orgs and spaces are admitted, and what a refusal leaves behind in the name registry; the
-- fields that no update changes.
use korifi.Base.{
  String, ◌≡◌, refl, ◌≢◌, false, Option, none, some, ◌==◌, eq_iff, ◌≤◌, len, ltb, arith, Bool-cases,
  inl, inr, ◌⊎◌,
}
use korifi.Kube.Errors.{ApiError}
use korifi.Validation.{ValidationError, duplicate_error, unknown_error}
use korifi.Names.Interface.{Context, is_dry_run, Owner, Claim, owner_of, NameRegistry}
use korifi.Names.Duplicate
use korifi.Names.Duplicate.Owners.{Owns, create-Owns}
use korifi.Names.Duplicate.Laws.{create_taken}
use korifi.Webhooks.Workloads.Orgs.{Org, unique_org, as_invalid, validate_org_create}
use korifi.Webhooks.Workloads.Orgs
use korifi.Webhooks.Workloads.Spaces.{
  Space, unique_space, placement, placement_error, validate_space_create,
}
use korifi.Webhooks.Workloads.Spaces
use korifi.Webhooks.Workloads.Orgs.{AdmissionError, invalid, plain}
use korifi.Webhooks.Workloads.Apps
use korifi.Webhooks.Workloads.Apps.{App}
use korifi.Webhooks.Workloads.Services.{ServiceInstance, validate_instance_update}
use korifi.Webhooks.Workloads.Packages
use korifi.Webhooks.Workloads.Packages.{Package}

module _ (to_lower : String → String) (root_namespace : String) (registry : NameRegistry) where
  open registry use {State}

  as_invalid-none : (e : Option ValidationError) → as_invalid e ≡ none → e ≡ none
  as_invalid-none none h = refl
  as_invalid-none (some e) h = cc

  -- An org that is admitted in a request that is not a dry run is in the root namespace, has a
  -- name of at most 63 bytes, and owns the claim on its unique name.
  pub org_create_placed :
      (ctx : Context) (org : Org) (s : State)
      → is_dry_run ctx ≡ false
      → (Orgs.validate_create to_lower root_namespace registry ctx org s).1 ≡ none
      → (org.namespace ≡ root_namespace)
        × (len org.name ≤ 63)
        × Owns registry org.namespace
            (Orgs.validate_create to_lower root_namespace registry ctx org s).0
            (unique_org to_lower org)
  unfolding Orgs.validate_create validate_org_create
  org_create_placed ctx org s live admitted = elim (Bool-cases (org.namespace == root_namespace)) [
    | inl home ↦ elim (Bool-cases (ltb 63 (len org.name))) [
      | inl long ↦ ground arith
      | inr short ↦
          let named = rw (short, home) at admitted in
          rw (short, home)
            (
              (eq_iff org.namespace root_namespace).0 home,
              ground arith,
              create-Owns registry org.namespace ctx live (unique_org to_lower org) s
                  (as_invalid-none _ named),
            )
    ]
    | inr away ↦ ground arith
  ]

  -- An org outside the root namespace is refused, and the registry stays as it was.
  pub org_create_away :
      (ctx : Context) (org : Org) (s : State)
      → org.namespace ≢ root_namespace
      → ((Orgs.validate_create to_lower root_namespace registry ctx org s).1 ≢ none)
        × ((Orgs.validate_create to_lower root_namespace registry ctx org s).0 ≡ s)
  unfolding Orgs.validate_create validate_org_create
  org_create_away ctx org s away = (
    ground (arith, eq_iff org.namespace root_namespace),
    ground (arith, eq_iff org.namespace root_namespace),
  )

owner_of-some : (o : Option Claim) {w : Owner} → owner_of o ≡ some w → (c : Claim) × (o ≡ some c)
owner_of-some none h = cc
owner_of-some (some c) h = (c, refl)

module _ (to_lower : String → String) (get_org : String → String → Option ApiError)
    (root_namespace : String) (registry : NameRegistry) where
  open registry use {State, claim, key}

  later_refused :
      (ctx : Context) (space : Space) (s : State)
      → (((Duplicate.validate_create registry ctx space.namespace (unique_space to_lower space) s).1
            ≡ some (duplicate_error (unique_space to_lower space)))
          ⊎ ((Duplicate.validate_create registry ctx space.namespace
                (unique_space to_lower space)
                s).1
              ≡ some unknown_error))
      → (Spaces.validate_create to_lower get_org root_namespace registry ctx space s).1 ≢ none
  unfolding Spaces.validate_create
  later_refused ctx space s refused = ground arith

  -- In a request that is not a dry run, a space with a name of at most 63 bytes whose namespace
  -- is not that of an org is refused after its name was registered: if the name was free to
  -- register, the refused space owns the claim on it, and a creation of a space with that unique
  -- name in that namespace that comes next is refused too.
  pub space_create_leaks :
      (ctx : Context) (space later : Space) (s : State) (e : ApiError)
      → is_dry_run ctx ≡ false
      → len space.name ≤ 63
      → get_org root_namespace space.namespace ≡ some e
      → (Duplicate.validate_create registry ctx space.namespace (unique_space to_lower space) s).1
        ≡ none
      → later.namespace ≡ space.namespace
      → to_lower later.display_name ≡ to_lower space.display_name
      → let t = Spaces.validate_create to_lower get_org root_namespace registry ctx space s in
        (t.1 ≡ some (invalid (placement_error space)))
        × Owns registry space.namespace t.0 (unique_space to_lower space)
        × ((Spaces.validate_create to_lower get_org root_namespace registry ctx later t.0).1 ≢ none)
  unfolding Spaces.validate_create validate_space_create
  space_create_leaks ctx space later s e live short missing free place same =
      let obj = unique_space to_lower space in
      let made = Duplicate.validate_create registry ctx space.namespace obj s in
      let owned = create-Owns registry space.namespace ctx live obj s free in
      let run : Spaces.validate_create to_lower get_org root_namespace registry ctx space s
          ≡ (made.0, some (invalid (placement_error space))) =
        ground arith in
      let (c, held) = owner_of-some (claim made.0 space.namespace (key obj.unique_name)) owned in
      let taken : claim made.0 later.namespace (key (to_lower later.display_name)) ≡ some c =
        rw (place, same) held in
      let (refused, _) =
        create_taken registry ctx later.namespace (unique_space to_lower later) made.0 c live
          taken in
      rw run (refl, owned, later_refused ctx later made.0 refused)

-- Admitted updates of objects that are not being deleted keep an app's lifecycle type, a service
-- instance's type and a package's type.
pub update_keeps_types :
    (to_lower : String → String) (registry : NameRegistry) (ctx : Context) (s : registry.State)
    (old_app app : App) (old_si si : ServiceInstance) (old_package pack : Package)
    → app.is_deleting ≡ false
    → si.is_deleting ≡ false
    → pack.is_deleting ≡ false
    → (Apps.validate_update to_lower registry ctx old_app app s).1 ≡ none
    → (validate_instance_update registry ctx old_si si s).1 ≡ none
    → Packages.validate_update old_package pack ≡ none
    → (app.lifecycle_type ≡ old_app.lifecycle_type)
      × (si.instance_type ≡ old_si.instance_type)
      × (pack.package_type ≡ old_package.package_type)
unfolding Apps.validate_update validate_instance_update Packages.validate_update
update_keeps_types to_lower registry ctx s old_app app old_si si old_package pack a b c f g h = (
  ground (arith, eq_iff app.lifecycle_type old_app.lifecycle_type),
  ground (arith, eq_iff si.instance_type old_si.instance_type),
  ground (arith, eq_iff pack.package_type old_package.package_type),
)

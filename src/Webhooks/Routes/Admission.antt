-- ===== src/Webhooks/Routes/Admission.antt =====
-- Which routes the validator admits (controllers/webhooks/networking/routes/validator.go).
use korifi.Base.{
  String, ◌≡◌, refl, ◌≢◌, sym, ◌∙◌, false, Option, none, eq_iff, arith, ◌⊎◌, inl, inr, All,
}
use korifi.Kube.Errors.{ApiError, Result}
use korifi.Names.Interface.{Context, is_dry_run, NameRegistry}
use korifi.Names.Duplicate
use korifi.Names.Duplicate.Owners.{Owns, create-Owns}
use korifi.Webhooks.Routes.{
  Route, Texts, unique_route, validate_destinations, validate_route, validate_create,
  validate_update,
}
use korifi.Webhooks.Routes.Checks.{
  RouteFits, Found, not_fitting, Checked-cases, destinations_iff, validate_route_sound,
  validate_route_complete,
}

module _ (texts : Texts) (get_domain : String → String → Result ApiError String)
    (get_app : String → String → Option ApiError) (root_namespace : String)
    (registry : NameRegistry) (ctx : Context) where
  open registry use {State}

  -- In a request that is not a dry run, either the route has a domain that exists, destinations
  -- that are apps of its namespace, and a host and path that are well formed, and owns the claim
  -- on its unique name if its creation is admitted; or it lacks one of these, its creation is
  -- refused, and the registry stays as it was.
  pub route_create_fits :
      (r : Route) (s : State)
      → is_dry_run ctx ≡ false
      → ((domain : String) × RouteFits texts get_domain get_app r domain
          × ((validate_create texts get_domain get_app root_namespace registry ctx r s).1 ≡ none
              → Owns registry root_namespace
                  (validate_create texts get_domain get_app root_namespace registry ctx r s).0
                  (unique_route texts r)))
        ⊎ (((domain : String) → ¬ RouteFits texts get_domain get_app r domain)
            × ((validate_create texts get_domain get_app root_namespace registry ctx r s).1 ≢ none)
            × ((validate_create texts get_domain get_app root_namespace registry ctx r s).0 ≡ s))
  unfolding validate_create unique_route
  route_create_fits r s live = elim (Checked-cases (validate_route texts get_domain get_app r)) [
    | inl (domain, fits) ↦ inl (
      domain,
      validate_route_sound texts get_domain get_app r domain fits,
      rw fits (
          create-Owns registry root_namespace ctx live
            (unique_route texts (record r { fqdn = domain })) s),
    )
    | inr (e, wrong) ↦ inr (
      λ domain fits.
          not_fitting e
            (sym wrong ∙ validate_route_complete texts get_domain get_app r domain fits),
      rw wrong (λ h. cc),
      rw wrong refl,
    )
  ]

  same_name :
      (old r : Route)
      → r.host ≡ old.host
      → r.path ≡ old.path
      → r.domain_name ≡ old.domain_name
      → r.domain_namespace ≡ old.domain_namespace
      → (unique_route texts old).unique_name ≡ (unique_route texts r).unique_name
  unfolding unique_route
  same_name old r host path name place = cc

  kept_fields :
      (old r : Route) (s : State)
      → r.is_deleting ≡ false
      → (validate_update texts get_domain get_app root_namespace registry ctx old r s).1 ≡ none
      → (r.host ≡ old.host)
        × (r.path ≡ old.path)
        × (r.protocol ≡ old.protocol)
        × (r.domain_name ≡ old.domain_name)
        × (validate_destinations texts get_domain get_app r ≡ none)
        × ((unique_route texts old).unique_name ≡ (unique_route texts r).unique_name
            → (validate_update texts get_domain get_app root_namespace registry ctx old r s).0 ≡ s)
  unfolding validate_update Duplicate.validate_update
  kept_fields old r s live admitted = ground (
    arith,
    eq_iff r.host old.host,
    eq_iff r.path old.path,
    eq_iff r.protocol old.protocol,
    eq_iff r.domain_name old.domain_name,
    eq_iff (unique_route texts old).unique_name (unique_route texts r).unique_name,
  )

  -- An admitted update of a route that is not being deleted keeps its host, path, protocol and
  -- domain name, and each destination is an app of its namespace; if the update keeps the domain's
  -- namespace too, the registry stays as it was.
  pub route_update_keeps :
      (old r : Route) (s : State)
      → r.is_deleting ≡ false
      → (validate_update texts get_domain get_app root_namespace registry ctx old r s).1 ≡ none
      → (r.host ≡ old.host)
        × (r.path ≡ old.path)
        × (r.protocol ≡ old.protocol)
        × (r.domain_name ≡ old.domain_name)
        × All (Found texts get_domain get_app r.namespace) r.destinations
        × (r.domain_namespace ≡ old.domain_namespace
            → (validate_update texts get_domain get_app root_namespace registry ctx old r s).0 ≡ s)
  unfolding validate_update
  route_update_keeps old r s live admitted =
      let (host, path, protocol, name, there, same) = kept_fields old r s live admitted in
      (
        host,
        path,
        protocol,
        name,
        (destinations_iff texts get_domain get_app r).0 there,
        λ place. same (same_name old r host path name place),
      )

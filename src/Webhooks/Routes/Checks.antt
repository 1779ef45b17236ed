-- ===== src/Webhooks/Routes/Checks.antt =====
-- What the checks of a route's domain, destinations, host and path come to
-- (controllers/webhooks/networking/routes/validator.go).
use korifi.Base.{
  String, ◌≡◌, refl, ◌≢◌, subst, ◌≤◌, ap, ◌∙◌, List, [], ◌∷◌, false, Option, none, eq_iff, arith,
  ◌↔◌, ◌⊎◌, inl, inr, All, len, concat, Bool-cases, Option-cases,
}
use korifi.Kube.Errors.{ApiError, Result, ok, err, is_not_found}
use korifi.Validation.{ValidationError}
use korifi.Webhooks.Routes.{
  Route, Texts, validate_host, validate_fqdn, path_errors, validate_path, fetch_domain,
  check_destinations, domain_fetched, validate_destinations, validate_route,
}

Result-cases :
    (r : Result ApiError String) → ((a : String) × (r ≡ ok a)) ⊎ ((e : ApiError) × (r ≡ err e))
Result-cases (ok a) = inl (a, refl)
Result-cases (err e) = inr (e, refl)

pub Checked-cases :
    (r : Result ValidationError String)
    → ((a : String) × (r ≡ ok a)) ⊎ ((e : ValidationError) × (r ≡ err e))
Checked-cases (ok a) = inl (a, refl)
Checked-cases (err e) = inr (e, refl)

pub not_fitting :
    {P : Type 0} {domain : String} (e : ValidationError)
    → ◌≡◌ {A = Result ValidationError String} (err e) (ok domain)
    → P
not_fitting e h = cc

same_text : {x y : String} → ◌≡◌ {A = Result ValidationError String} (ok x) (ok y) → x ≡ y
same_text h = cc

module _ (texts : Texts) where
  open texts use {to_lower, is_dns1123_label, parse_request_uri, contains}

  -- The host is "*" or a DNS label, and fits the domain.
  pub HostFits : String → String → Type 0
  HostFits host domain =
      (len (concat (host ∷ "." ∷ domain ∷ [])) ≤ 253)
      × ((to_lower host ≡ "*") ⊎ (is_dns1123_label (to_lower host) ≡ []))

  -- The path is empty, or a URI of at most 128 bytes without a query that is not a slash alone.
  pub PathFits : String → Type 0
  PathFits path =
      (path ≡ "")
      ⊎ ((parse_request_uri path ≡ none)
          × (path ≢ "/")
          × (contains path "?" ≡ false)
          × (len path ≤ 128))

  validate_path_iff : (path : String) → (validate_path texts path ≡ none) ↔ PathFits path
  unfolding validate_path path_errors PathFits
  validate_path_iff path = ground (arith, eq_iff path "", eq_iff path "/")

  validate_fqdn_iff :
      (host domain : String) → (validate_fqdn texts host domain ≡ none) ↔ HostFits host domain
  unfolding validate_fqdn validate_host HostFits
  validate_fqdn_iff host domain = ground (arith, eq_iff (to_lower host) "*")

module _ (texts : Texts) (get_domain : String → String → Result ApiError String)
    (get_app : String → String → Option ApiError) where
  -- The app is there.
  pub Found : String → String → Type 0
  Found namespace app = get_app namespace app ≡ none

  check_destinations_iff :
      (namespace : String) (apps : List String)
      → (check_destinations texts get_domain get_app namespace apps ≡ none)
        ↔ All (Found namespace) apps
  unfolding check_destinations Found
  check_destinations_iff namespace [] = (λ h. tt, λ h. refl)
  check_destinations_iff namespace (app ∷ apps) =
      let rest = check_destinations_iff namespace apps in
      elim (Option-cases (get_app namespace app)) [
        | inl found ↦ rw found (λ h. (refl, rest.0 h), λ (h, hs). rest.1 hs)
        | inr (e, missing) ↦ rw missing (λ h. cc, λ (h, hs). cc)
      ]

  pub destinations_iff :
      (r : Route)
      → (validate_destinations texts get_domain get_app r ≡ none)
        ↔ All (Found r.namespace) r.destinations
  unfolding validate_destinations
  destinations_iff r =
      let found = check_destinations_iff r.namespace r.destinations in
      elim (Option-cases (check_destinations texts get_domain get_app r.namespace r.destinations)) [
        | inl none' ↦ rw none' (λ h. found.0 none', λ h. refl)
        | inr (e, missing) ↦ rw missing (
          λ h. elim (Bool-cases (is_not_found e)) [
            | inl is ↦ cc (rw is at h)
            | inr is ↦ cc (rw is at h)
          ],
          λ h. cc (found.1 h, missing),
        )
      ]

  -- The route's domain is there and called so, its destinations are in its namespace, and its host
  -- and path are well formed.
  pub RouteFits : Route → String → Type 0
  RouteFits r domain =
      (get_domain r.domain_namespace r.domain_name ≡ ok domain)
      × All (Found r.namespace) r.destinations
      × HostFits texts r.host domain
      × PathFits texts r.path

  domain_fetched_sound :
      (r : Route) (found domain : String)
      → domain_fetched texts get_domain get_app r (ok found) ≡ ok domain
      → (found ≡ domain)
        × (validate_destinations texts get_domain get_app r ≡ none)
        × (validate_fqdn texts r.host found ≡ none)
        × (validate_path texts r.path ≡ none)
  domain_fetched_sound r found domain h =
      elim (Option-cases (validate_destinations texts get_domain get_app r)) [
        | inr (e, bad) ↦ not_fitting e (rw bad at h)
        | inl there ↦ elim (Option-cases (validate_fqdn texts r.host found)) [
          | inr (e, bad) ↦ not_fitting e (rw (there, bad) at h)
          | inl host ↦ elim (Option-cases (validate_path texts r.path)) [
            | inr (e, bad) ↦ not_fitting e (rw (there, host, bad) at h)
            | inl path ↦ (same_text (rw (there, host, path) at h), there, host, path)
          ]
        ]
      ]

  pub validate_route_sound :
      (r : Route) (domain : String)
      → validate_route texts get_domain get_app r ≡ ok domain
      → RouteFits r domain
  unfolding validate_route RouteFits fetch_domain
  validate_route_sound r domain h =
      elim (Result-cases (get_domain r.domain_namespace r.domain_name)) [
        | inr (e, missing) ↦ not_fitting _ (rw missing at h)
        | inl (found, at) ↦
            let (same, there, host, path) = domain_fetched_sound r found domain (rw at at h) in
            (
              at ∙ ap ok same,
              (destinations_iff r).0 there,
              subst (HostFits texts r.host) same ((validate_fqdn_iff texts r.host found).0 host),
              (validate_path_iff texts r.path).0 path,
            )
      ]

  pub validate_route_complete :
      (r : Route) (domain : String)
      → RouteFits r domain
      → validate_route texts get_domain get_app r ≡ ok domain
  unfolding validate_route RouteFits fetch_domain
  validate_route_complete r domain (at, destinations, host, path) =
      rw
        (
          at,
          (destinations_iff r).1 destinations,
          (validate_fqdn_iff texts r.host domain).1 host,
          (validate_path_iff texts r.path).1 path,
        )
        refl

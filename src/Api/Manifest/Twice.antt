-- ===== src/Api/Manifest/Twice.antt =====
-- A manifest that is normalized twice (api/actions/manifest/normalizer.go).
use korifi.Base.{
  append-nil, String, List, [], ◌∷◌, ◌++◌, ◌≡◌, refl, sym, ap, ◌∙◌, Bool, true, false, Option, none,
  some, ◌==◌, any, map, if_either, if_true, if◌then◌else◌,
}
use korifi.Api.Manifest.{ManifestProcess, ManifestRoute, ManifestApplication, AppState}
use korifi.Api.Manifest.Normalizer.{
  web, new_web, proc_val_if_set, fixed_process, fix_deprecated_fields, has_process_fields,
  merged_fields, merged, merged_web, normalize_processes, normalize_routes, normalize,
}

kept {ℓ} :
    {A : Type ℓ} (alt app own : Option A)
    → proc_val_if_set alt (proc_val_if_set app (proc_val_if_set alt own))
      ≡ proc_val_if_set app (proc_val_if_set alt own)
kept none none none = refl
kept (some v) app none = refl
kept none (some u) none = refl
kept alt app (some v) = refl

fixed_twice :
    {A : Type 0} (alt own : Option A)
    → proc_val_if_set alt (proc_val_if_set alt own) ≡ proc_val_if_set alt own
fixed_twice none none = refl
fixed_twice (some v) none = refl
fixed_twice alt (some v) = refl

fixed-fixed : (p : ManifestProcess) → fixed_process (fixed_process p) ≡ fixed_process p
fixed-fixed p = ap (λ d. record p { disk_quota = d }) (fixed_twice p.alt_disk_quota p.disk_quota)

map-fixed :
    (ps : List ManifestProcess) → map fixed_process (map fixed_process ps) ≡ map fixed_process ps
map-fixed [] = refl
map-fixed (p ∷ ps) = rw (fixed-fixed p, map-fixed ps) refl

-- A process of type web is among them.
abbrev has_web : List ManifestProcess → Bool
has_web ps = any (λ p. p.process_type == web) ps

module _ {Extra Json : Type 0} (a : ManifestApplication Extra Json) where
  fixed-merged :
      (p : ManifestProcess)
      → fixed_process (merged a (fixed_process p)) ≡ merged a (fixed_process p)
  fixed-merged p =
      if_either (λ q. fixed_process q ≡ q) (has_process_fields a) _ _
        (λ h.
          ap (λ d. record (merged_fields a (fixed_process p)) { disk_quota = d })
            (kept p.alt_disk_quota a.disk_quota p.disk_quota))
        (λ h. fixed-fixed p)

  map-merged_web :
      (ps : List ManifestProcess)
      → map fixed_process (merged_web a (map fixed_process ps))
        ≡ merged_web a (map fixed_process ps)
  map-merged_web [] = ap (λ q. q ∷ []) (fixed-merged new_web)
  map-merged_web (p ∷ ps) =
      if_either (λ qs. map fixed_process qs ≡ qs) (p.process_type == web) _ _
        (λ is. rw (fixed-merged p, map-fixed ps) refl)
        (λ other. rw (fixed-fixed p, map-merged_web ps) refl)

  merged_type : (p : ManifestProcess) → (merged a p).process_type ≡ p.process_type
  merged_type p =
      if_either (λ (q : ManifestProcess). q.process_type ≡ p.process_type) (has_process_fields a) _
        _ (λ h. refl) (λ h. refl)

  merged_web-has_web : (ps : List ManifestProcess) → has_web (merged_web a ps) ≡ true
  merged_web-has_web [] = rw (merged_type new_web) refl
  merged_web-has_web (p ∷ ps) =
      if_either (λ qs. has_web qs ≡ true) (p.process_type == web) _ _
        (λ is. rw (merged_type p, is) refl) (λ other. rw (other, merged_web-has_web ps) refl)

  merged_web-idle :
      (ps : List ManifestProcess)
      → has_process_fields a ≡ false
      → has_web ps ≡ true
      → merged_web a ps ≡ ps
  merged_web-idle [] idle has = cc
  merged_web-idle (p ∷ ps) idle has =
      if_either (λ qs. qs ≡ p ∷ ps) (p.process_type == web) _ _ (λ is. rw idle refl)
        (λ other. ap (λ qs. p ∷ qs) (merged_web-idle ps idle (rw other at has)))

routes_again :
    (no_route some_routes : Bool) (routes : List ManifestRoute)
    → (no_route ≡ true → routes ≡ [])
    → (if no_route then [] else if some_routes then routes ++ [] else routes) ≡ routes
routes_again true some_routes routes empty = sym (empty refl)
routes_again false true routes empty = append-nil routes
routes_again false false routes empty = refl

module _ {Extra Json : Type 0} (default_domain_name : String) where
  -- Normalizing a manifest once more, against the same state of the application and whatever the
  -- random words, changes nothing.
  pub normalize-normalize :
      (random_words more_words : String) (a : ManifestApplication Extra Json) (state : AppState)
      → let n = normalize default_domain_name random_words a state in
        normalize default_domain_name more_words n state ≡ n
  unfolding normalize fix_deprecated_fields normalize_processes normalize_routes
  normalize-normalize random_words more_words a state =
      let n = normalize default_domain_name random_words a state in
      let d = fix_deprecated_fields a in
      let fixed = map-merged_web d a.processes in
      let processes =
        ap (merged_web (fix_deprecated_fields n)) fixed
        ∙ merged_web-idle (fix_deprecated_fields n) n.processes refl
            (merged_web-has_web d (map fixed_process a.processes)) in
      let routes : normalize_routes default_domain_name more_words (fix_deprecated_fields n) state
          ≡ n.routes =
        routes_again a.no_route _ n.routes (λ h. if_true a.no_route _ _ h) in
      ap
        (λ ps. record n {
          processes = ps;
          routes = normalize_routes default_domain_name more_words (fix_deprecated_fields n) state;
        })
        processes
      ∙ ap (λ rs. record n { routes = rs }) routes

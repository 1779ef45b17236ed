-- ===== src/Api/Manifest/Web.antt =====
-- The web process of a normalized manifest (api/actions/manifest/normalizer.go).
use korifi.Base.{
  All, String, List, [], ◌∷◌, ◌++◌, ◌≡◌, refl, true, false, Option, none, some, ◌==◌, is_some, map,
  arith, if_either,
}
use korifi.Api.Manifest.{ManifestProcess, ManifestApplication, AppState}
use korifi.Api.Manifest.Normalizer.{
  web, new_web, proc_val_if_set, fixed_process, fix_deprecated_fields, has_process_fields, merged,
  merged_web, normalize_processes, normalize,
}

-- The value of a field: the process's own, or else that of the application.
pub data Chosen {A : Type 0} (app : Option A) : Option A → Option A → Type 0 where
  its_own : (v : A) → Chosen app (some v) (some v)
  the_applications : Chosen app none app

chosen : {A : Type 0} (app own : Option A) → Chosen app own (proc_val_if_set app own)
chosen app none = the_applications
chosen app (some v) = its_own v

unchosen : {A : Type 0} (app own : Option A) → is_some app ≡ false → Chosen app own own
unchosen none none h = the_applications
unchosen none (some v) h = its_own v
unchosen (some a) own h = cc

module _ {Extra Json : Type 0} (a : ManifestApplication Extra Json) where
  -- A process with the fields of the application where it has none itself.
  pub record Overrides (p q : ManifestProcess) : Type 0 where
    pub process_type : q.process_type ≡ p.process_type
    pub memory : Chosen a.memory p.memory q.memory
    pub disk_quota : Chosen a.disk_quota p.disk_quota q.disk_quota
    pub instances : Chosen a.instances p.instances q.instances
    pub command : Chosen a.command p.command q.command
    pub health_check_http_endpoint :
        Chosen a.health_check_http_endpoint p.health_check_http_endpoint
          q.health_check_http_endpoint
    pub health_check_type : Chosen a.health_check_type p.health_check_type q.health_check_type
    pub health_check_invocation_timeout :
        Chosen a.health_check_invocation_timeout p.health_check_invocation_timeout
          q.health_check_invocation_timeout
    pub timeout : Chosen a.timeout p.timeout q.timeout

  merged-Overrides : (p : ManifestProcess) → Overrides p (merged a p)
  merged-Overrides p =
      if_either (Overrides p) (has_process_fields a) _ _
        (λ some_set. record {
          process_type = refl;
          memory = chosen _ _;
          disk_quota = chosen _ _;
          instances = chosen _ _;
          command = chosen _ _;
          health_check_http_endpoint = chosen _ _;
          health_check_type = chosen _ _;
          health_check_invocation_timeout = chosen _ _;
          timeout = chosen _ _;
        })
        (λ none_set. record {
          process_type = refl;
          memory = unchosen _ _ (ground (arith, none_set));
          disk_quota = unchosen _ _ (ground (arith, none_set));
          instances = unchosen _ _ (ground (arith, none_set));
          command = unchosen _ _ (ground (arith, none_set));
          health_check_http_endpoint = unchosen _ _ (ground (arith, none_set));
          health_check_type = unchosen _ _ (ground (arith, none_set));
          health_check_invocation_timeout = unchosen _ _ (ground (arith, none_set));
          timeout = unchosen _ _ (ground (arith, none_set));
        })

  abbrev pub NotWeb : ManifestProcess → Type 0
  NotWeb p = (p.process_type == web) ≡ false

  -- The first web process gets the fields of the application, or a new one at the end does.
  pub data Merges : List ManifestProcess → List ManifestProcess → Type 0 where
    into :
        (before rest : List ManifestProcess) (p q : ManifestProcess)
        → All NotWeb before
        → (p.process_type == web) ≡ true
        → Overrides p q
        → Merges (before ++ p ∷ rest) (before ++ q ∷ rest)
    adding :
        (ps : List ManifestProcess) (q : ManifestProcess)
        → All NotWeb ps
        → Overrides new_web q
        → Merges ps (ps ++ q ∷ [])

  Merges-other :
      (p : ManifestProcess) (ps qs : List ManifestProcess)
      → NotWeb p
      → Merges ps qs
      → Merges (p ∷ ps) (p ∷ qs)
  Merges-other p ps qs other (into before rest r q apart is over) =
      into (p ∷ before) rest r q (other, apart) is over
  Merges-other p ps qs other (adding ps' q apart over) = adding (p ∷ ps') q (other, apart) over

  merged_web-Merges : (ps : List ManifestProcess) → Merges ps (merged_web a ps)
  merged_web-Merges [] = adding [] (merged a new_web) tt (merged-Overrides new_web)
  merged_web-Merges (p ∷ ps) =
      if_either (Merges (p ∷ ps)) (p.process_type == web) _ _
        (λ is. into [] ps p (merged a p) tt is (merged-Overrides p))
        (λ other. Merges-other p ps (merged_web a ps) other (merged_web-Merges ps))

module _ {Extra Json : Type 0} (default_domain_name random_words : String) where
  -- In a normalized manifest the first web process has the fields of the application where it has
  -- none itself; if there was no web process, one with these fields is added at the end. The other
  -- processes stay as they are, in their order, but for the old name of the disk quota.
  pub normalize-Merges :
      (a : ManifestApplication Extra Json) (state : AppState)
      → Merges
          (fix_deprecated_fields a)
          (map fixed_process a.processes)
          (normalize default_domain_name random_words a state).processes
  unfolding fix_deprecated_fields normalize_processes normalize
  normalize-Merges a state =
      merged_web-Merges (fix_deprecated_fields a) (map fixed_process a.processes)

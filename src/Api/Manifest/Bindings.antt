-- ===== src/Api/Manifest/Bindings.antt =====
-- The bindings that the applier of a manifest makes (api/actions/manifest/applier.go).
use mathlib.Core.List.{Memᴰ}
use korifi.Base.{
  ℕ, suc, String, List, [], ◌∷◌, ◌≡◌, refl, sym, ap, ◌∙◌, subst, Bool, true, false, Option, none,
  some, ◌==◌, any, is_some, eq_iff, eqb, arith, inl, inr, ◌⊎◌, insert, lookup, if◌then◌else◌,
}
use korifi.Kube.Errors.{Result, ok, err}
use korifi.Api.Manifest.{ManifestService, ManifestApplication, AppState}
use korifi.Api.Manifest.Applier.{
  ApplyError, ServiceInstanceRecord, Request, create_service_binding, Repositories, Run, after,
  followed, in_turn, service_names, unbound_names, record_of, or_earlier, get_manifest_service,
  binding_message, bound_service, bind_services, bind_unbound, apply_services,
}

-- How often a name is in a list of names, or is a key of a map.
abbrev pub occurrences : String → List String → ℕ
occurrences n [] = 0
occurrences n (m ∷ ms) = let rest = occurrences n ms in if m == n then suc rest else rest

abbrev key_count : String → List (String × Bool) → ℕ
key_count n [] = 0
key_count n (kv ∷ kvs) = let rest = key_count n kvs in if kv.0 == n then suc rest else rest

key_count-insert :
    (n k : String) (kvs : List (String × Bool))
    → key_count n (insert k true kvs) ≡ (
        if k == n
        then (if eqb (key_count n kvs) 0 then 1 else key_count n kvs)
        else key_count n kvs)
unfolding insert
key_count-insert n k [] = ground (arith, eq_iff k n)
key_count-insert n k (kv ∷ kvs) =
    ground (key_count-insert n k kvs, arith, eq_iff kv.0 k, eq_iff kv.0 n, eq_iff k n)

module _ {Extra Json : Type 0} (world : Repositories Extra Json) where
  service_names-once :
      (n : String) (ss : List (ManifestService Json))
      → key_count n (service_names world ss) ≡ (if any (λ s. s.name == n) ss then 1 else 0)
  service_names-once n [] = refl
  service_names-once n (s ∷ ss) =
      ground (service_names-once n ss, key_count-insert n s.name (service_names world ss), arith)

  unbound_names-occurrences :
      (n : String) (bound : List (String × String)) (kvs : List (String × Bool))
      → occurrences n (unbound_names world bound kvs)
        ≡ (if is_some (lookup n bound) then 0 else key_count n kvs)
  unbound_names-occurrences n bound [] = ground arith
  unbound_names-occurrences n bound (kv ∷ kvs) =
      ground (unbound_names-occurrences n bound kvs, arith, eq_iff kv.0 n)

  or_earlier-Memᴰ :
      (name : String) (x : ServiceInstanceRecord) (xs : List ServiceInstanceRecord) (same : Bool)
      (later : Option ServiceInstanceRecord)
      → (x.name == name) ≡ same
      → ((r : ServiceInstanceRecord) → later ≡ some r → Memᴰ r xs × ((r.name == name) ≡ true))
      → (r : ServiceInstanceRecord) → or_earlier world same x later ≡ some r
      → Memᴰ r (x ∷ xs) × ((r.name == name) ≡ true)
  or_earlier-Memᴰ name x xs true none is found r h =
      let here : x ≡ r = cc h in
      (Memᴰ.head (sym here), ap (λ (y : ServiceInstanceRecord). y.name == name) (sym here) ∙ is)
  or_earlier-Memᴰ name x xs false none is found r h = cc
  or_earlier-Memᴰ name x xs true (some l) is found r h =
      let (there, named) = found r h in (Memᴰ.tail there, named)
  or_earlier-Memᴰ name x xs false (some l) is found r h =
      let (there, named) = found r h in (Memᴰ.tail there, named)

  record_of-Memᴰ :
      (name : String) (rs : List ServiceInstanceRecord) (r : ServiceInstanceRecord)
      → record_of world name rs ≡ some r
      → Memᴰ r rs × ((r.name == name) ≡ true)
  record_of-Memᴰ name [] r h = cc
  record_of-Memᴰ name (x ∷ xs) r h =
      or_earlier-Memᴰ name x xs _ (record_of world name xs) refl (record_of-Memᴰ name xs) r h

  first-Memᴰ :
      (name : String) (x s : ManifestService Json) (xs : List (ManifestService Json)) (same : Bool)
      (rest : Option (ManifestService Json))
      → (x.name == name) ≡ same
      → (rest ≡ some s → Memᴰ s xs × ((s.name == name) ≡ true))
      → (if same then some x else rest) ≡ some s
      → Memᴰ s (x ∷ xs) × ((s.name == name) ≡ true)
  first-Memᴰ name x s xs true rest is found h =
      let here : x ≡ s = cc h in
      (Memᴰ.head (sym here), ap (λ (y : ManifestService Json). y.name == name) (sym here) ∙ is)
  first-Memᴰ name x s xs false rest is found h =
      let (there, named) = found h in (Memᴰ.tail there, named)

  get_manifest_service-Memᴰ :
      (name : String) (ss : List (ManifestService Json)) (s : ManifestService Json)
      → get_manifest_service world name ss ≡ some s
      → Memᴰ s ss × ((s.name == name) ≡ true)
  get_manifest_service-Memᴰ name [] s h = cc
  get_manifest_service-Memᴰ name (x ∷ xs) s h =
      first-Memᴰ name x s xs _ (get_manifest_service world name xs) refl
        (get_manifest_service-Memᴰ name xs s) h

  module _ (a : ManifestApplication Extra Json) (state : AppState) where
    -- One request for each name: to bind the service of the manifest with that name to the app, by
    -- an instance of that name.
    pub data Binds (records : List ServiceInstanceRecord)
        : List String → List (Request Extra Json) → Type 0 where
      no_more : Binds records [] []
      binds :
          {names : List String} {requests : List (Request Extra Json)}
          → (name : String) (r : ServiceInstanceRecord) (s : ManifestService Json)
          → Memᴰ r records × ((r.name == name) ≡ true)
          → Memᴰ s a.services × ((s.name == name) ≡ true)
          → Binds records names requests
          → Binds records
              (name ∷ names)
              (create_service_binding (binding_message world state r s) ∷ requests)

    asked-Binds :
        (records : List ServiceInstanceRecord) (names : List String) (name : String)
        (r : ServiceInstanceRecord) (s : ManifestService Json) (rest : Run Extra Json)
        (answer : Option ApplyError)
        → let request = create_service_binding (binding_message world state r s) in
          Memᴰ r records × ((r.name == name) ≡ true)
          → Memᴰ s a.services × ((s.name == name) ≡ true)
          → (rest.failure ≡ none → Binds records names rest.requests)
          → (followed world
              (record { requests = request ∷ []; failure = answer })
              answer
              rest).failure
            ≡ none
          → Binds records
              (name ∷ names)
              (followed world
                (record { requests = request ∷ []; failure = answer })
                answer
                rest).requests
    asked-Binds records names name r s rest none is_record is_service more fine =
        binds name r s is_record is_service (more fine)
    asked-Binds records names name r s rest (some e) is_record is_service more fine = cc

    step-Binds :
        (records : List ServiceInstanceRecord) (names : List String) (name : String)
        (rest : Run Extra Json) (record' : Option ServiceInstanceRecord)
        (service : Option (ManifestService Json))
        → record_of world name records ≡ record'
        → get_manifest_service world name a.services ≡ service
        → (rest.failure ≡ none → Binds records names rest.requests)
        → (after world (bound_service world a state name record' service) rest).failure ≡ none
        → Binds records
            (name ∷ names)
            (after world (bound_service world a state name record' service) rest).requests
    step-Binds records names name rest none service is is' more fine = cc
    step-Binds records names name rest (some r) none is is' more fine = cc
    step-Binds records names name rest (some r) (some s) is is' more fine =
        asked-Binds records names name r s rest _ (record_of-Memᴰ name records r is)
          (get_manifest_service-Memᴰ name a.services s is') more fine

    abbrev bind_each : List ServiceInstanceRecord → List String → Run Extra Json
    bind_each records names =
        in_turn world
          (λ name.
            bound_service world a state name (record_of world name records)
              (get_manifest_service world name a.services))
          names

    each-Binds :
        (records : List ServiceInstanceRecord) (names : List String)
        → (bind_each records names).failure ≡ none
        → Binds records names (bind_each records names).requests
    each-Binds records [] fine = no_more
    each-Binds records (name ∷ names) fine =
        step-Binds records names name (bind_each records names) _ _ refl refl
          (each-Binds records names) fine

    abbrev unbound : List String
    unbound = unbound_names world state.service_bindings (service_names world a.services)

    -- All that is asked: nothing when no service is unbound, and else one binding for each.
    unfoldable pub BindsAll : List (Request Extra Json) → Type 0
    BindsAll requests =
        ((unbound ≡ []) × (requests ≡ []))
        ⊎ ((records : List ServiceInstanceRecord) × (world.list_service_instances unbound
              ≡ ok records)
            × Binds records (world.keys_in_order unbound) requests)

    listed-BindsAll :
        (names : List String) (answer : Result ApplyError (List ServiceInstanceRecord))
        → world.list_service_instances names ≡ answer
        → (bind_services world a state names answer).failure ≡ none
        → (records : List ServiceInstanceRecord) × (world.list_service_instances names ≡ ok records)
          × Binds records
              (world.keys_in_order names)
              (bind_services world a state names answer).requests
    listed-BindsAll names (err e) is fine = cc
    listed-BindsAll names (ok records) is fine =
        (records, is, each-Binds records (world.keys_in_order names) fine)

    some-BindsAll :
        (names : List String)
        → unbound ≡ names
        → (bind_unbound world a state names).failure ≡ none
        → BindsAll (bind_unbound world a state names).requests
    unfolding BindsAll
    some-BindsAll [] is fine = inl (is, refl)
    some-BindsAll (n ∷ ns) is fine = inr (
        subst
          (λ names.
            (records : List ServiceInstanceRecord) × (world.list_service_instances names
              ≡ ok records)
            × Binds records (world.keys_in_order names)
                (bind_unbound world a state (n ∷ ns)).requests)
          (sym is) (listed-BindsAll (n ∷ ns) _ refl fine))

    -- The services of a manifest that are not bound yet are those named in it to which the
    -- application has no binding, each once. When they are applied without an error, then for each
    -- of them, in the order in which Go goes through them, one binding is asked for, of the
    -- service with that name in the manifest and an instance of that name; and nothing else.
    pub apply_services-BindsAll :
        (apply_services world a state).failure ≡ none
        → BindsAll (apply_services world a state).requests
          × ((n : String)
              → occurrences n unbound ≡ (
                  if is_some (lookup n state.service_bindings)
                  then 0
                  else if any (λ s. s.name == n) a.services
                  then 1
                  else 0))
    unfolding apply_services
    apply_services-BindsAll fine = (
      some-BindsAll unbound refl fine,
      λ n.
          unbound_names-occurrences n state.service_bindings (service_names world a.services)
          ∙ ap (λ c. if is_some (lookup n state.service_bindings) then 0 else c)
              (service_names-once n a.services),
    )

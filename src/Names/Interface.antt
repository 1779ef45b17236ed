-- ===== src/Names/Interface.antt =====
-- The interface between the duplicate validator and the name registry (controllers/webhooks,
-- `NameRegistry`): its operations, and what a client may rely on. A claim stands under a
-- namespace and a key; two names may share a key.
use korifi.Base.{String, ◌≡◌, Bool, true, false, ◌&&◌, Option, none, some, ◌==◌, if◌then◌else◌}
use korifi.Kube.Errors.{ApiError, Result, ok}

-- `admission.RequestFromContext` and its `DryRun`, a pointer to a Boolean.
abbrev pub Context : Type 0
Context = Option (Option Bool)

unfoldable pub is_dry_run : Context → Bool
is_dry_run none = false
is_dry_run (some none) = false
is_dry_run (some (some dry_run)) = dry_run

pub record Owner : Type 0 where
  pub owner_namespace : String
  pub owner_name : String

pub record Claim : Type 0 where
  pub owner : Owner
  pub holder : String

abbrev pub unlocked_identity : String
unlocked_identity = "none"

abbrev pub locked_identity : String
locked_identity = "locked"

abbrev pub owner_of : Option Claim → Option Owner
owner_of none = none
owner_of (some c) = some c.owner

pub record NameRegistry : Type 1 where
  pub State : Type 0
  pub key : String → String
  pub claim : State → String → String → Option Claim
  pub register_name : Context → String → String → String → String → State → State × Option ApiError
  pub deregister_name : Context → String → String → State → State × Option ApiError
  pub try_lock_name : Context → String → String → State → State × Option ApiError
  pub unlock_name : Context → String → String → State → State × Option ApiError
  pub check_name_ownership :
      Context → String → String → String → String → State → Result ApiError Bool
  pub register_ok :
      (ctx : Context) (ns name owner_ns owner : String) (s : State)
      → is_dry_run ctx ≡ false
      → (register_name ctx ns name owner_ns owner s).1 ≡ none
      → (claim s ns (key name) ≡ none)
        × ((ns' k : String)
            → claim (register_name ctx ns name owner_ns owner s).0 ns' k ≡ (
                if ns == ns' && key name == k
                then some (record {
                  owner = record { owner_namespace = owner_ns; owner_name = owner };
                  holder = unlocked_identity;
                })
                else claim s ns' k))
  pub register_err :
      (ctx : Context) (ns name owner_ns owner : String) (s : State) (e : ApiError)
      → (register_name ctx ns name owner_ns owner s).1 ≡ some e
      → (ns' k : String)
      → claim (register_name ctx ns name owner_ns owner s).0 ns' k ≡ claim s ns' k
  pub deregister_ok :
      (ctx : Context) (ns name : String) (s : State)
      → is_dry_run ctx ≡ false
      → (deregister_name ctx ns name s).1 ≡ none
      → (ns' k : String)
      → claim (deregister_name ctx ns name s).0 ns' k
        ≡ (if ns == ns' && key name == k then none else claim s ns' k)
  pub deregister_err :
      (ctx : Context) (ns name : String) (s : State) (e : ApiError)
      → (deregister_name ctx ns name s).1 ≡ some e
      → (ns' k : String) → claim (deregister_name ctx ns name s).0 ns' k ≡ claim s ns' k
  pub try_lock_ok :
      (ctx : Context) (ns name : String) (s : State)
      → is_dry_run ctx ≡ false
      → (try_lock_name ctx ns name s).1 ≡ none
      → (c : Claim) × (claim s ns (key name) ≡ some c)
        × (c.holder ≡ unlocked_identity)
        × ((ns' k : String)
            → claim (try_lock_name ctx ns name s).0 ns' k ≡ (
                if ns == ns' && key name == k
                then some (record c { holder = locked_identity })
                else claim s ns' k))
  pub try_lock_err :
      (ctx : Context) (ns name : String) (s : State) (e : ApiError)
      → (try_lock_name ctx ns name s).1 ≡ some e
      → (ns' k : String) → claim (try_lock_name ctx ns name s).0 ns' k ≡ claim s ns' k
  pub unlock_ok :
      (ctx : Context) (ns name : String) (s : State)
      → is_dry_run ctx ≡ false
      → (unlock_name ctx ns name s).1 ≡ none
      → (c : Claim) × (claim s ns (key name) ≡ some c)
        × (c.holder ≡ locked_identity)
        × ((ns' k : String)
            → claim (unlock_name ctx ns name s).0 ns' k ≡ (
                if ns == ns' && key name == k
                then some (record c { holder = unlocked_identity })
                else claim s ns' k))
  pub unlock_err :
      (ctx : Context) (ns name : String) (s : State) (e : ApiError)
      → (unlock_name ctx ns name s).1 ≡ some e
      → (ns' k : String) → claim (unlock_name ctx ns name s).0 ns' k ≡ claim s ns' k
  pub ownership_ok :
      (ctx : Context) (ns name owner_ns owner : String) (s : State)
      → check_name_ownership ctx ns name owner_ns owner s ≡ ok true
      → owner_of (claim s ns (key name))
        ≡ some (record { owner_namespace = owner_ns; owner_name = owner })
  pub dry_run :
      (ctx : Context) (ns name owner_ns owner : String) (s : State)
      → is_dry_run ctx ≡ true
      → (register_name ctx ns name owner_ns owner s ≡ (s, none))
        × (deregister_name ctx ns name s ≡ (s, none))
        × (try_lock_name ctx ns name s ≡ (s, none))
        × (unlock_name ctx ns name s ≡ (s, none))

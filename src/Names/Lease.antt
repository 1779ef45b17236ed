-- ===== src/Names/Lease.antt =====
-- Leases of the Kubernetes coordination API, which the registry keeps its claims in. The API
-- server is not part of the program: `LeaseApi` is its calls and what its documentation promises.
use korifi.Base.{String, ◌≡◌, List, [], ◌∷◌, true, ◌&&◌, Option, none, some, ◌==◌, if◌then◌else◌}
use korifi.Kube.Errors.{ApiError, Result, ok, is_not_found}

pub record Lease : Type 0 where
  pub name : String
  pub namespace : String
  pub annotations : List (String × String)
  pub holder_identity : String

-- An operation of a JSON patch (RFC 6902), with its path and value.
pub data PatchOp : Type 0 where
  test replace : String → String → PatchOp

abbrev pub holder_path : String
holder_path = "/spec/holderIdentity"

-- The patch that both locking and unlocking send.
abbrev pub swap_holder : String → String → List PatchOp
swap_holder from to = test holder_path from ∷ replace holder_path to ∷ []

-- `lease_at` is what is stored, by namespace and name. A call that fails may fail for reasons of
-- its own, and changes nothing.
pub record LeaseApi : Type 1 where
  pub Cluster : Type 0
  pub lease_at : Cluster → String → String → Option Lease
  pub create : Lease → Cluster → Cluster × Option ApiError
  pub delete : String → String → Cluster → Cluster × Option ApiError
  pub patch : String → String → List PatchOp → Cluster → Cluster × Option ApiError
  pub get : String → String → Cluster → Result ApiError Lease
  pub create_ok :
      (l : Lease) (c : Cluster)
      → (create l c).1 ≡ none
      → (lease_at c l.namespace l.name ≡ none)
        × ((ns n : String)
            → lease_at (create l c).0 ns n
              ≡ (if l.namespace == ns && l.name == n then some l else lease_at c ns n))
  pub create_err :
      (l : Lease) (c : Cluster) (e : ApiError)
      → (create l c).1 ≡ some e
      → (ns n : String) → lease_at (create l c).0 ns n ≡ lease_at c ns n
  pub delete_ok :
      (ns n : String) (c : Cluster)
      → (delete ns n c).1 ≡ none
      → (ns' n' : String)
      → lease_at (delete ns n c).0 ns' n'
        ≡ (if ns == ns' && n == n' then none else lease_at c ns' n')
  pub delete_err :
      (ns n : String) (c : Cluster) (e : ApiError)
      → (delete ns n c).1 ≡ some e
      → (ns' n' : String) → lease_at (delete ns n c).0 ns' n' ≡ lease_at c ns' n'
  pub delete_not_found :
      (ns n : String) (c : Cluster) (e : ApiError)
      → (delete ns n c).1 ≡ some e
      → is_not_found e ≡ true
      → lease_at c ns n ≡ none
  pub patch_ok :
      (ns n from to : String) (c : Cluster)
      → (patch ns n (swap_holder from to) c).1 ≡ none
      → (l : Lease) × (lease_at c ns n ≡ some l)
        × (l.holder_identity ≡ from)
        × ((ns' n' : String)
            → lease_at (patch ns n (swap_holder from to) c).0 ns' n' ≡ (
                if ns == ns' && n == n'
                then some (record l { holder_identity = to })
                else lease_at c ns' n'))
  pub patch_err :
      (ns n : String) (ops : List PatchOp) (c : Cluster) (e : ApiError)
      → (patch ns n ops c).1 ≡ some e
      → (ns' n' : String) → lease_at (patch ns n ops c).0 ns' n' ≡ lease_at c ns' n'
  pub get_ok :
      (ns n : String) (c : Cluster) (l : Lease) → get ns n c ≡ ok l → lease_at c ns n ≡ some l

-- ===== src/Api/Permissions.antt =====
-- api/authorization/namespace_permissions.go: the namespaces in which a user has a role. The list
-- answers of the API server and the identity provider are parameters. `strings.HasPrefix` is
-- written out.
pub mod Agree
pub mod Accounts
use Prim.Native.String
use Prim.Native.Char.{Char, code}
use korifi.Base.{
  ℕ, String, List, [], ◌∷◌, Bool, true, false, ◌&&◌, Option, none, some, ◌==◌, concat, eqb,
  split_on, insert, lookup, is_some, if◌then◌else◌,
}
use korifi.Kube.Errors.{Result, ok, err}

pub record Identity : Type 0 where
  pub name : String
  pub kind : String

pub record Subject : Type 0 where
  pub kind : String
  pub name : String
  pub namespace : String

pub record RoleBinding : Type 0 where
  pub namespace : String
  pub subjects : List Subject

-- The error `expected user identifier %q to have prefix %q` of two texts, or a panic.
pub data AuthError : Type 0 where
  missing_prefix : String → String → AuthError
  index_out_of_range : AuthError

abbrev pub service_account_name_prefix : String
service_account_name_prefix = "system:serviceaccount:"

unfoldable pub has_prefix : String → String → Bool
has_prefix String.[] s = true
has_prefix (String.◌∷◌ c p) String.[] = false
has_prefix (String.◌∷◌ c p) (String.◌∷◌ d s) = eqb (code c) (code d) && has_prefix p s

abbrev pub last_two : List String → Option (String × String)
last_two [] = none
last_two (x ∷ []) = none
last_two (x ∷ y ∷ []) = some (x, y)
last_two (x ∷ y ∷ z ∷ zs) = last_two (y ∷ z ∷ zs)

-- `none` where the index of a segment is below 0.
abbrev pub service_account_ns_and_name : String → Option (String × String)
service_account_ns_and_name name = last_two (split_on 58 name)

abbrev pub same_account : Subject → Option (String × String) → Result AuthError Bool
same_account subject none = err index_out_of_range
same_account subject (some (ns, name)) = ok (name == subject.name && ns == subject.namespace)

unfoldable pub same_subject : Identity → Subject → Result AuthError Bool
same_subject identity subject =
    if identity.kind == subject.kind
    then if identity.kind == "ServiceAccount"
      then if has_prefix service_account_name_prefix identity.name
        then same_account subject (service_account_ns_and_name identity.name)
        else err (missing_prefix identity.name service_account_name_prefix)
      else ok (identity.name == subject.name)
    else ok false

abbrev pub and_then {ℓ κ} :
    {A : Type ℓ} {B : Type κ} → Result AuthError A → (A → Result AuthError B) → Result AuthError B
and_then (err e) f = err e
and_then (ok a) f = f a

-- A loop over a list that stops at the first error.
abbrev pub try_fold {ℓ κ} :
    {A : Type ℓ} {S : Type κ} → (A → S → Result AuthError S) → List A → S → Result AuthError S
try_fold f [] s = ok s
try_fold f (x ∷ xs) s = and_then (f x s) (λ s'. try_fold f xs s')

module _ (identity : Identity) where
  abbrev pub granted :
      List (String × Bool)
      → String
      → Bool
      → List (String × Bool)
      → Result AuthError (List (String × Bool))
  granted cf ns is_match authorized =
      ok (if is_match && is_some (lookup ns cf) then insert ns true authorized else authorized)

  abbrev pub collect_subject :
      List (String × Bool)
      → String
      → Subject
      → List (String × Bool)
      → Result AuthError (List (String × Bool))
  collect_subject cf ns subject authorized =
      and_then (same_subject identity subject) (λ is_match. granted cf ns is_match authorized)

  abbrev pub collect_binding :
      List (String × Bool)
      → RoleBinding
      → List (String × Bool)
      → Result AuthError (List (String × Bool))
  collect_binding cf binding authorized =
      try_fold (collect_subject cf binding.namespace) binding.subjects authorized

  abbrev pub names_of : List String → List (String × Bool)
  names_of [] = []
  names_of (n ∷ ns) = insert n true (names_of ns)

  -- Of the role bindings of the cluster and the namespaces with the label of an org or a space.
  unfoldable pub get_authorized_namespaces :
      List RoleBinding → List String → Result AuthError (List (String × Bool))
  get_authorized_namespaces bindings namespaces =
      try_fold (collect_binding (names_of namespaces)) bindings []

  abbrev pub found : Bool → Result AuthError Bool → Result AuthError Bool
  found true rest = ok true
  found false rest = rest

  abbrev pub any_subject : List Subject → Result AuthError Bool → Result AuthError Bool
  any_subject [] rest = rest
  any_subject (s ∷ ss) rest =
      let later = any_subject ss rest in
      and_then (same_subject identity s) (λ is_match. found is_match later)

  -- Of the role bindings of one namespace.
  unfoldable pub authorized_in : List RoleBinding → Result AuthError Bool
  authorized_in [] = ok false
  authorized_in (b ∷ bs) = let later = authorized_in bs in any_subject b.subjects later

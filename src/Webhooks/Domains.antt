-- ===== src/Webhooks/Domains.antt =====
-- controllers/webhooks/networking/domains/validator.go. `is_fully_qualified` is the library's
-- check of a domain name, by the text of its error; `quote` is the verb `%q`; `list_domains` is the API server's answer.
pub mod Suffix
pub mod Disjoint
use korifi.Base.{
  ℕ, zero, suc, ◌+◌, ◌-◌, String, List, [], ◌∷◌, Bool, true, false, not, Option, none, some, ◌==◌,
  ltb, length, get_elem?, split_on, concat, if◌then◌else◌,
}
use korifi.Kube.Errors.{ApiError, Result, ok, err}
use korifi.Validation.{ValidationError, unknown_error, immutable_field_error}

pub record Domain : Type 0 where
  pub name : String
  pub is_deleting : Bool

infixl 5 ◌>>=◌
abbrev pub ◌>>=◌ {ℓ κ} : {A : Type ℓ} {B : Type κ} → Option A → (A → Option B) → Option B
none >>= k = none
some a >>= k = k a

-- The loop of `isSubDomain`, downwards, with `n` elements left; `none` is an index out of range.
unfoldable pub same_tail : List String → List String → ℕ → ℕ → Option Bool
same_tail shorter longer offset zero = some true
same_tail shorter longer offset (suc i) =
    let rest = same_tail shorter longer offset i in
    (do
      a ← get_elem? shorter i
      b ← get_elem? longer (i + offset)
      if not (a == b) then some false else rest)

unfoldable pub is_sub_domain : List String → List String → Option Bool
is_sub_domain domain existing =
    if ltb (length domain) (length existing)
    then same_tail domain existing (length existing - length domain) (length domain)
    else same_tail existing domain (length domain - length existing) (length existing)

-- The loop of `domainIsOverlapping` over the existing domains; `none` is a panic.
unfoldable pub overlaps_any : List String → List Domain → Option Bool
overlaps_any elements [] = some false
overlaps_any elements (d ∷ ds) =
    let rest = overlaps_any elements ds in
    (do found ← is_sub_domain elements (split_on b'.' d.name); if found then some true else rest)

abbrev overlapping_error : ValidationError
overlapping_error = record {
  error_type = "DuplicateDomainError";
  message = "Overlapping domain exists";
}

abbrev overlap_error : Option Bool → Option (Option ValidationError)
overlap_error none = none
overlap_error (some true) = some (some overlapping_error)
overlap_error (some false) = some none

abbrev list_error : String → Result ApiError (List Domain) → Option (Option ValidationError)
list_error name (err e) = some (some unknown_error)
list_error name (ok ds) = overlap_error (overlaps_any (split_on b'.' name) ds)

module _ (quote : String → String) (is_fully_qualified : String → Option String) where
  abbrev name_error : String → String → ValidationError
  name_error name e = record {
    error_type = "InvalidDomainError";
    message = concat (quote name ∷ " is not a valid domain: " ∷ e ∷ []);
  }

  abbrev create_error :
      String → Option String → Result ApiError (List Domain) → Option (Option ValidationError)
  create_error name (some e) list_domains = some (some (name_error name e))
  create_error name none list_domains = list_error name list_domains

  -- The admission error, if any; `none` is a panic.
  unfoldable pub validate_create :
      Result ApiError (List Domain) → Domain → Option (Option ValidationError)
  validate_create list_domains domain =
      create_error domain.name (is_fully_qualified domain.name) list_domains

unfoldable pub validate_update : Domain → Domain → Option ValidationError
validate_update old domain =
    if domain.is_deleting
    then none
    else if not (old.name == domain.name)
    then some (immutable_field_error "CFDomain.Spec.Name")
    else none

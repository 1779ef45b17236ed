-- ===== src/Api/Tests.antt =====
-- Pages of a concrete list, and concrete role bindings.
use korifi.Base.{
  refl, true, ◌&&◌, ◌==◌, any, is_some, lookup, insert, ℕ, suc, ◌≡◌, String, List, [], ◌∷◌, some,
  arith, ◌⊎◌,
}
use korifi.Base.Int.{pos}
use korifi.Kube.Errors.{ok, err}
use korifi.Api.Permissions.{
  Identity, Subject, RoleBinding, same_subject, get_authorized_namespaces, authorized_in,
}
use korifi.Api.Permissions.Agree.{in_namespace, has_role, authorized_namespaces_agree}
use korifi.Api.Permissions.Accounts.{Answers, same_subject-Answers}
use korifi.Api.Pager.{Page, get_page}
use korifi.Api.Pager.Cover.{gathered, pages_cover}
use korifi.Api.Pager.Bounds.{IsBelowOne, Fits, get_page-Fits}

abbrev letters : List String
letters = "a" ∷ "b" ∷ "c" ∷ "d" ∷ "e" ∷ []

pages_cover_example :
    (p : Page String) × (get_page letters (pos 2) (pos 1) ≡ some (ok p))
    × (gathered letters (pos 2) p.info.total_pages ≡ some letters)
pages_cover_example = pages_cover letters 2 (omega arith)

get_page-Fits_example :
    ((text : String) × (get_page letters (pos 2) (pos 3) ≡ some (err text))
      × (IsBelowOne (pos 2) ⊎ IsBelowOne (pos 3)))
    ⊎ ((m : ℕ) × (k : ℕ) × (pos 2 ≡ pos (suc m))
        × (pos 3 ≡ pos (suc k))
        × Fits letters (suc m) (suc k) (get_page letters (pos 2) (pos 3)))
get_page-Fits_example = get_page-Fits letters (pos 2) (pos 3)

abbrev user : Identity
user = record { name = "alice"; kind = "User" }

abbrev role : String → String → RoleBinding
role namespace name = record {
  namespace = namespace;
  subjects = record { kind = "User"; name = name; namespace = "" } ∷ [];
}

abbrev roles : List RoleBinding
roles = role "space-1" "bob" ∷ role "space-1" "alice" ∷ role "kube-system" "alice" ∷ []

collected :
    get_authorized_namespaces user roles ("space-1" ∷ "space-2" ∷ []) ≡ ok (("space-1", true) ∷ [])
unfolding get_authorized_namespaces same_subject insert lookup
collected = refl

authorized_namespaces_agree_example :
    (is_some (lookup "space-1" (("space-1", true) ∷ []))
      ≡ (any (λ m. m == "space-1") ("space-1" ∷ "space-2" ∷ []) && has_role user "space-1" roles))
    × (authorized_in user (in_namespace "space-1" roles) ≡ ok (has_role user "space-1" roles))
authorized_namespaces_agree_example =
    authorized_namespaces_agree user roles ("space-1" ∷ "space-2" ∷ []) (("space-1", true) ∷ [])
      collected "space-1"

abbrev account : Identity
account = record { name = "system:serviceaccount:cf:builder"; kind = "ServiceAccount" }

abbrev subject : Subject
subject = record { kind = "ServiceAccount"; name = "builder"; namespace = "cf" }

same_subject-Answers_example : Answers (same_subject account subject)
same_subject-Answers_example = same_subject-Answers account subject

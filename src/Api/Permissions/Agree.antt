-- ===== src/Api/Permissions/Agree.antt =====
-- The two questions about a user's namespaces have the same answer
-- (api/authorization/namespace_permissions.go).
use korifi.Base.{
  String, List, [], ◌∷◌, ◌≡◌, refl, sym, ap, ◌∙◌, Bool, true, false, ◌&&◌, ◌||◌, ◌==◌, any, arith,
  eq_iff, insert, lookup, lookup-insert, is_some, if_either, if◌then◌else◌,
}
use korifi.Kube.Errors.{Result, ok, err}
use korifi.Api.Permissions.{
  Identity, Subject, RoleBinding, AuthError, and_then, try_fold, same_subject, granted,
  collect_subject, collect_binding, names_of, get_authorized_namespaces, found, any_subject,
  authorized_in,
}

-- The role bindings of a namespace.
abbrev pub in_namespace : String → List RoleBinding → List RoleBinding
in_namespace ns [] = []
in_namespace ns (b ∷ bs) =
    let rest = in_namespace ns bs in if b.namespace == ns then b ∷ rest else rest

and_then-ok {ℓ κ} :
    {A : Type ℓ} {B : Type κ} (r : Result AuthError A) (f : A → Result AuthError B) (b : B)
    → and_then r f ≡ ok b
    → (a : A) × (r ≡ ok a) × (f a ≡ ok b)
and_then-ok (err e) f b h = cc
and_then-ok (ok a) f b h = (a, refl, h)

here :
    (same named other : Bool)
    → same ≡ true
    → ◌≡◌ {A = Result AuthError Bool}
        (if named then ok true else ok other)
        (ok ((same && named) || other))
here true true other h = refl
here true false other h = refl
here false named other h = cc

elsewhere :
    (same named other : Bool)
    → same ≡ false
    → ◌≡◌ {A = Result AuthError Bool} (ok other) (ok ((same && named) || other))
elsewhere true named other h = cc
elsewhere false named other h = refl

module _ (identity : Identity) where
  abbrev is_yes : Result AuthError Bool → Bool
  is_yes (ok b) = b
  is_yes (err e) = false

  -- Whether a role binding in the namespace names the user.
  abbrev pub has_role : String → List RoleBinding → Bool
  has_role ns bindings =
      any (λ b. (b.namespace == ns) && any (λ s. is_yes (same_subject identity s)) b.subjects)
        bindings

  subject_collected :
      (cf : List (String × Bool)) (ns n : String) (s : Subject) (answer : Result AuthError Bool)
      (before m : List (String × Bool))
      → and_then answer (λ is_match. granted identity cf ns is_match before) ≡ ok m
      → is_some (lookup n m)
        ≡ (is_some (lookup n before) || ((ns == n) && (is_some (lookup ns cf) && is_yes answer)))
  subject_collected cf ns n s (err e) before m h = cc
  subject_collected cf ns n s (ok is_match) before m h =
      let same : (if is_match && is_some (lookup ns cf) then insert ns true before else before)
          ≡ m =
        cc h in
      ap (λ l. is_some (lookup n l)) (sym same) ∙ ground (lookup-insert before ns n true, arith)

  abbrev any_yes : List Subject → Bool
  any_yes ss = any (λ s. is_yes (same_subject identity s)) ss

  subjects_collected :
      (cf : List (String × Bool)) (ns n : String) (ss : List Subject)
      (before m : List (String × Bool))
      → try_fold (collect_subject identity cf ns) ss before ≡ ok m
      → is_some (lookup n m)
        ≡ (is_some (lookup n before) || ((ns == n) && (is_some (lookup ns cf) && any_yes ss)))
  subjects_collected cf ns n [] before m h =
      let same : before ≡ m = cc h in ap (λ l. is_some (lookup n l)) (sym same) ∙ ground arith
  subjects_collected cf ns n (s ∷ ss) before m h =
      let (next, is, rest) = and_then-ok (collect_subject identity cf ns s before) _ m h in
      let now = subject_collected cf ns n s (same_subject identity s) before next is in
      let later = subjects_collected cf ns n ss next m rest in
      later
      ∙ ap (λ b. b || ((ns == n) && (is_some (lookup ns cf) && any_yes ss))) now
      ∙ ground arith

  found_or :
      (b named : Bool) (later rest : Result AuthError Bool)
      → later ≡ (if named then ok true else rest)
      → found identity b later ≡ (if b || named then ok true else rest)
  found_or true named later rest h = refl
  found_or false named later rest h = h

  any_subject_answers :
      (cf : List (String × Bool)) (ns : String) (ss : List Subject)
      (before m : List (String × Bool)) (rest : Result AuthError Bool)
      → try_fold (collect_subject identity cf ns) ss before ≡ ok m
      → any_subject identity ss rest ≡ (if any_yes ss then ok true else rest)
  any_subject_answers cf ns [] before m rest h = refl
  any_subject_answers cf ns (s ∷ ss) before m rest h =
      let (next, is, more) = and_then-ok (collect_subject identity cf ns s before) _ m h in
      let (b, answered, made) = and_then-ok (same_subject identity s) _ next is in
      let later = any_subject_answers cf ns ss next m rest more in
      ap (λ r. and_then r (λ is_match. found identity is_match (any_subject identity ss rest)))
        answered
      ∙ found_or b (any_yes ss) (any_subject identity ss rest) rest later
      ∙ ap (λ r. if is_yes r || any_yes ss then ok true else rest) (sym answered)

  key_moved :
      (cf : List (String × Bool)) (ns n : String) (named : Bool)
      → ((ns == n) && (is_some (lookup ns cf) && named))
        ≡ (is_some (lookup n cf) && ((ns == n) && named))
  key_moved cf ns n named = ground (arith, eq_iff ns n)

  bindings_collected :
      (cf : List (String × Bool)) (n : String) (bs : List RoleBinding)
      (before m : List (String × Bool))
      → try_fold (collect_binding identity cf) bs before ≡ ok m
      → is_some (lookup n m)
        ≡ (is_some (lookup n before) || (is_some (lookup n cf) && has_role n bs))
  bindings_collected cf n [] before m h =
      let same : before ≡ m = cc h in ap (λ l. is_some (lookup n l)) (sym same) ∙ ground arith
  bindings_collected cf n (b ∷ bs) before m h =
      let (next, is, rest) = and_then-ok (collect_binding identity cf b before) _ m h in
      let now = subjects_collected cf b.namespace n b.subjects before next is in
      let later = bindings_collected cf n bs next m rest in
      let moved = key_moved cf b.namespace n (any_yes b.subjects) in
      later
      ∙ ap (λ x. x || (is_some (lookup n cf) && has_role n bs))
          (now ∙ ap (λ y. is_some (lookup n before) || y) moved)
      ∙ ground arith

  role_answers :
      (cf : List (String × Bool)) (n : String) (bs : List RoleBinding)
      (before m : List (String × Bool))
      → try_fold (collect_binding identity cf) bs before ≡ ok m
      → authorized_in identity (in_namespace n bs) ≡ ok (has_role n bs)
  unfolding authorized_in
  role_answers cf n [] before m h = refl
  role_answers cf n (b ∷ bs) before m h =
      let (next, is, rest) = and_then-ok (collect_binding identity cf b before) _ m h in
      let later = role_answers cf n bs next m rest in
      let answers =
        any_subject_answers cf b.namespace b.subjects before next
          (authorized_in identity (in_namespace n bs)) is in
      if_either (λ l. authorized_in identity l ≡ ok (has_role n (b ∷ bs))) (b.namespace == n) _ _
        (λ same.
          answers
          ∙ ap (λ r. if any_yes b.subjects then ok true else r) later
          ∙ here (b.namespace == n) (any_yes b.subjects) (has_role n bs) same)
        (λ other. later ∙ elsewhere (b.namespace == n) (any_yes b.subjects) (has_role n bs) other)

  names_of-any :
      (n : String) (ns : List String)
      → is_some (lookup n (names_of identity ns)) ≡ any (λ m. m == n) ns
  unfolding lookup
  names_of-any n [] = refl
  names_of-any n (m ∷ ns) =
      ground (lookup-insert (names_of identity ns) m n true, names_of-any n ns, arith)

  -- When the authorized namespaces can be collected from all role bindings, then for every
  -- namespace: it is among them exactly when it is an org or a space and one of its role bindings
  -- names the user, and to the question for it alone, asked of its role bindings, the answer is
  -- whether one of them names the user.
  pub authorized_namespaces_agree :
      (bindings : List RoleBinding) (namespaces : List String) (authorized : List (String × Bool))
      → get_authorized_namespaces identity bindings namespaces ≡ ok authorized
      → (n : String)
      → (is_some (lookup n authorized) ≡ (any (λ m. m == n) namespaces && has_role n bindings))
        × (authorized_in identity (in_namespace n bindings) ≡ ok (has_role n bindings))
  unfolding get_authorized_namespaces lookup
  authorized_namespaces_agree bindings namespaces authorized h n = (
    bindings_collected (names_of identity namespaces) n bindings [] authorized h
        ∙ ap (λ b. b && has_role n bindings) (names_of-any n namespaces),
    role_answers (names_of identity namespaces) n bindings [] authorized h,
  )

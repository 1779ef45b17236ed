-- ===== src/Api/Permissions/Accounts.antt =====
-- The name of a service account always has the segments that are read from it
-- (api/authorization/namespace_permissions.go).
use Prim.Native.Char.{Char, code}
use korifi.Base.{
  ℕ, suc, ◌≤◌, String, List, [], ◌∷◌, ◌≡◌, ◌⊎◌, inl, inr, refl, ap, Bool, true, some, ◌==◌, arith,
  eqb, length, push_front, split_on, if_either, if◌then◌else◌,
}
use korifi.Kube.Errors.{Result, ok, err}
use korifi.Api.Permissions.{
  Identity, Subject, AuthError, missing_prefix, has_prefix, last_two, service_account_name_prefix,
  service_account_ns_and_name, same_account, same_subject,
}

unfoldable colons : String → ℕ
colons String.[] = 0
colons (String.◌∷◌ c s) = let rest = colons s in if eqb (code c) 58 then suc rest else rest

length-push_front :
    (c : Char) (ws : List String) → 1 ≤ length ws → length (push_front c ws) ≡ length ws
length-push_front c [] h = absurd (omega (arith, h))
length-push_front c (w ∷ ws) h = refl

split_on-some : (s : String) → 1 ≤ length (split_on 58 s)
unfolding split_on
split_on-some String.[] = omega arith
split_on-some (String.◌∷◌ c s) =
    if_either (λ (ws : List String). 1 ≤ length ws) (eqb (code c) 58) _ _ (λ h. omega arith)
      (λ h. omega (arith, split_on-some s, length-push_front c (split_on 58 s) (split_on-some s)))

colons-split_on : (p s : String) → has_prefix p s ≡ true → suc (colons p) ≤ length (split_on 58 s)
unfolding split_on has_prefix colons
colons-split_on String.[] s h = split_on-some s
colons-split_on (String.◌∷◌ c p) String.[] h = cc
colons-split_on (String.◌∷◌ c p) (String.◌∷◌ d s) h =
    let more : has_prefix p s ≡ true = ground (arith, h) in
    let same : eqb (code c) (code d) ≡ true = ground (arith, h) in
    let rest = colons-split_on p s more in
    let kept = length-push_front d (split_on 58 s) (split_on-some s) in
    ground (arith, rest, kept, same)

last_two-length :
    (ws : List String) → 2 ≤ length ws → (parts : String × String) × (last_two ws ≡ some parts)
last_two-length [] h = absurd (omega (arith, h))
last_two-length (x ∷ []) h = absurd (omega (arith, h))
last_two-length (x ∷ y ∷ []) h = ((x, y), refl)
last_two-length (x ∷ y ∷ z ∷ zs) h = last_two-length (y ∷ z ∷ zs) (omega arith)

-- A comparison that ends with an answer, or with the error for a missing prefix.
unfoldable pub Answers : Result AuthError Bool → Type 0
Answers r =
    ((b : Bool) × (r ≡ ok b)) ⊎ ((name prefix : String) × (r ≡ err (missing_prefix name prefix)))

account-Answers :
    (name : String) (subject : Subject)
    → has_prefix service_account_name_prefix name ≡ true
    → Answers (same_account subject (service_account_ns_and_name name))
unfolding Answers colons
account-Answers name subject h =
    let enough = colons-split_on service_account_name_prefix name h in
    let (parts, is) = last_two-length (split_on 58 name) (omega (arith, enough)) in
    inl (_, ap (same_account subject) is)

-- For every user and every subject of a role binding, the comparison ends with an answer or with
-- the error for a missing prefix: it never reads a segment of a name that is not there.
pub same_subject-Answers :
    (identity : Identity) (subject : Subject) → Answers (same_subject identity subject)
unfolding Answers same_subject
same_subject-Answers identity subject =
    if_either Answers (identity.kind == subject.kind) _ _
      (λ same.
        if_either Answers (identity.kind == "ServiceAccount") _ _
          (λ account.
            if_either Answers (has_prefix service_account_name_prefix identity.name) _ _
              (account-Answers identity.name subject) (λ bad. inr (_, _, refl)))
          (λ user. inl (_, refl)))
      (λ other. inl (_, refl))

-- ===== src/Webhooks/Domains/Disjoint.antt =====
-- The domains that the validator has admitted one after the other.
use korifi.Base.{
  String, ◌≡◌, refl, List, [], ◌∷◌, Bool, true, false, Option, none, some, arith, All, ◌⊎◌, inl,
  inr, split_on, if◌then◌else◌, Option-cases, Bool-cases, ◌↔◌, sym, subst, ap, ◌∙◌,
}
use korifi.Kube.Errors.{ApiError, Result, ok, err}
use korifi.Validation.{ValidationError, unknown_error}
use korifi.Webhooks.Domains.{Domain, overlaps_any, validate_create}
use korifi.Webhooks.Domains.Suffix.{EndsIn, is_sub_domain_iff}

abbrev pub labels : Domain → List String
labels d = split_on b'.' d.name

-- Neither domain is the other or a subdomain of it.
abbrev pub AreApart : Domain → Domain → Type 0
AreApart d e = ¬ (EndsIn (labels e) (labels d) ⊎ EndsIn (labels d) (labels e))

abbrev pub PairwiseApart : List Domain → Type 0
PairwiseApart [] = Unit
PairwiseApart (d ∷ ds) = All (AreApart d) ds × PairwiseApart ds

overlaps_any-total :
    (d : Domain) (ds : List Domain) → (b : Bool) × (overlaps_any (labels d) ds ≡ some b)
unfolding overlaps_any
overlaps_any-total d [] = (false, refl)
overlaps_any-total d (e ∷ ds) =
    let ((r, er), _) = is_sub_domain_iff (labels d) (labels e) in
    let (b, eb) = overlaps_any-total d ds in (if r then true else b, ground arith)

overlaps_any_sound :
    (d : Domain) (ds : List Domain) → overlaps_any (labels d) ds ≡ some false → All (AreApart d) ds
unfolding overlaps_any
overlaps_any_sound d [] h = tt
overlaps_any_sound d (e ∷ ds) h =
    let ((r, er), iff) = is_sub_domain_iff (labels d) (labels e) in
    (λ ends. ground (arith, iff.1 ends), overlaps_any_sound d ds (ground arith))

overlaps_any_complete :
    (d : Domain) (ds : List Domain) → All (AreApart d) ds → overlaps_any (labels d) ds ≡ some false
unfolding overlaps_any
overlaps_any_complete d [] h = refl
overlaps_any_complete d (e ∷ ds) (apart, rest) =
    let ((r, er), iff) = is_sub_domain_iff (labels d) (labels e) in
    elim (Bool-cases r) [
      | inl found ↦ absurd (apart (iff.0 (rw (er, found))))
      | inr free ↦ rw (er, free) (overlaps_any_complete d ds rest)
    ]

ok-injective :
    (ds es : List Domain) → ◌≡◌ {A = Result ApiError (List Domain)} (ok ds) (ok es) → ds ≡ es
ok-injective ds es e = cc

module _ (quote : String → String) (is_fully_qualified : String → Option String) where
  -- A creation never panics, and is admitted exactly when the name is fully qualified, the
  -- existing domains could be listed, and the new domain is apart from each of them.
  pub validate_create_iff :
      (list_domains : Result ApiError (List Domain)) (d : Domain)
      → ((e : Option ValidationError) × (validate_create quote is_fully_qualified list_domains d
            ≡ some e))
        × ((validate_create quote is_fully_qualified list_domains d ≡ some none) ↔ (
            (is_fully_qualified d.name ≡ none)
            × ((ds : List Domain) × (list_domains ≡ ok ds) × All (AreApart d) ds)))
  unfolding validate_create
  validate_create_iff (err e) d = elim (Option-cases (is_fully_qualified d.name)) [
    | inl good ↦ rw good ((some unknown_error, refl), (λ h. cc, λ (_, (_, bad, _)). cc))
    | inr (why, bad) ↦ rw bad ((_, refl), (λ h. cc, λ (good, _). cc))
  ]
  validate_create_iff (ok ds) d =
      let (b, answer) = overlaps_any-total d ds in
      elim (Option-cases (is_fully_qualified d.name)) [
        | inr (why, bad) ↦ rw bad ((_, refl), (λ h. cc, λ (good, _). cc))
        | inl good ↦ elim (Bool-cases b) [
          | inl overlap ↦
              rw (good, answer, overlap)
                (
                  (_, refl),
                  (
                    λ h. cc,
                    λ (_, (ds', same, apart)).
                        let free =
                          overlaps_any_complete d ds
                            (subst (All (AreApart d)) (ok-injective _ _ (sym same)) apart) in
                        cc (answer, overlap, free),
                  ),
                )
          | inr free ↦
              rw (good, answer, free)
                (
                  (_, refl),
                  (
                    λ h. (refl, (ds, refl, overlaps_any_sound d ds (answer ∙ ap some free))),
                    λ h. refl,
                  ),
                )
        ]
      ]

  -- Creations admitted one after the other, each against a list of the domains then there.
  pub data Admitted : List Domain → Type 0 where
    none_yet : Admitted []
    one_more :
        (d : Domain) (ds : List Domain)
        → Admitted ds
        → validate_create quote is_fully_qualified (ok ds) d ≡ some none
        → Admitted (d ∷ ds)

  -- Of domains that were admitted one after the other, none is another one or a subdomain of it.
  pub Admitted-apart : (ds : List Domain) → Admitted ds → PairwiseApart ds
  Admitted-apart [] none_yet = tt
  Admitted-apart (d ∷ ds) (one_more d' ds' a admitted) =
      let (_, (_, same, apart)) = (validate_create_iff (ok ds) d).1.0 admitted in
      (subst (All (AreApart d)) (ok-injective _ _ (sym same)) apart, Admitted-apart ds a)

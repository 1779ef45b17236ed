-- ===== src/Kube/Listed.antt =====
-- Conditions in a list with one entry for each type: the promises of `ConditionsApi` can be kept.
-- It serves the tests only.
use korifi.Base.{
  ap, sym, ◌∙◌, inl, inr, Bool-cases, ℕ, String, ◌≡◌, refl, List, [], ◌∷◌, Option, none, some, ◌==◌,
  eq_iff, arith, if◌then◌else◌,
}
use korifi.Kube.Conditions.{Condition, is_true, transitioned, ConditionsApi}

abbrev pub find_in : List Condition → String → Option Condition
find_in [] t = none
find_in (c ∷ cs) t = if c.condition_type == t then some c else find_in cs t

abbrev pub set_in : ℕ → Condition → List Condition → List Condition
set_in now c [] = transitioned now none c ∷ []
set_in now c (d ∷ cs) =
    let rest = set_in now c cs in
    if d.condition_type == c.condition_type then transitioned now (some d) c ∷ cs else d ∷ rest

pub find-type :
    (cs : List Condition) (t : String) (c : Condition)
    → find_in cs t ≡ some c
    → c.condition_type ≡ t
find-type [] t c h = cc
find-type (d ∷ cs) t c h = elim (Bool-cases (d.condition_type == t)) [
  | inl is ↦
      let same : d ≡ c = ground (arith, rw is at h) in
      ap (λ (x : Condition). x.condition_type) (sym same) ∙ (eq_iff d.condition_type t).0 is
  | inr other ↦ find-type cs t c (rw other at h)
]

pub find-set :
    (now : ℕ) (c : Condition) (cs : List Condition) (t : String)
    → find_in (set_in now c cs) t ≡ (
        if c.condition_type == t
        then some (transitioned now (find_in cs c.condition_type) c)
        else find_in cs t)
find-set now c [] t = ground arith
find-set now c (d ∷ cs) t = ground (
  arith,
  eq_iff d.condition_type c.condition_type,
  eq_iff d.condition_type t,
  eq_iff c.condition_type t,
  find-set now c cs t,
)

abbrev pub listed_conditions : ConditionsApi
listed_conditions = record {
  find_status_condition = find_in;
  is_status_condition_true = λ cs t. is_true (find_in cs t);
  set_status_condition = set_in;
  is_status_condition_true_lem = λ cs t. refl;
  find-type = find-type;
  find-set = find-set;
}

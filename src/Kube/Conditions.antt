-- ===== src/Kube/Conditions.antt =====
-- Status conditions (k8s.io/apimachinery, `metav1.Condition` and `meta`). The functions on lists
-- of conditions are a library's: `ConditionsApi` is their documented behaviour. Times are numbers,
-- 0 for the zero time, and `now` is the time of the call.
use korifi.Base.{
  ℕ, String, ◌≡◌, refl, List, Bool, false, eq_refl, arith, Option, none, some, ◌==◌, eqb,
  if◌then◌else◌,
}

pub record Condition : Type 0 where
  pub condition_type : String
  pub status : String
  pub reason : String
  pub message : String
  pub observed_generation : ℕ
  pub last_transition_time : ℕ

abbrev pub condition_true : String
condition_true = "True"

abbrev pub condition_false : String
condition_false = "False"

abbrev pub is_true : Option Condition → Bool
is_true none = false
is_true (some c) = c.status == condition_true

abbrev stamped : ℕ → Condition → Condition
stamped now c = record c {
  last_transition_time = if eqb c.last_transition_time 0 then now else c.last_transition_time;
}

-- What a condition becomes over the one of its type that was there before.
abbrev pub transitioned : ℕ → Option Condition → Condition → Condition
transitioned now none c = stamped now c
transitioned now (some old) c =
    if old.status == c.status
    then record c { last_transition_time = old.last_transition_time }
    else stamped now c

pub record ConditionsApi : Type 0 where
  pub find_status_condition : List Condition → String → Option Condition
  pub is_status_condition_true : List Condition → String → Bool
  pub set_status_condition : ℕ → Condition → List Condition → List Condition
  pub is_status_condition_true_lem :
      (cs : List Condition) (t : String)
      → is_status_condition_true cs t ≡ is_true (find_status_condition cs t)
  pub find-type :
      (cs : List Condition) (t : String) (c : Condition)
      → find_status_condition cs t ≡ some c
      → c.condition_type ≡ t
  pub find-set :
      (now : ℕ) (c : Condition) (cs : List Condition) (t : String)
      → find_status_condition (set_status_condition now c cs) t ≡ (
          if c.condition_type == t
          then some (transitioned now (find_status_condition cs c.condition_type) c)
          else find_status_condition cs t)

-- Only the time depends on the condition that was there before.
pub transitioned_same :
    (now : ℕ) (old : Option Condition) (c : Condition)
    → ((transitioned now old c).status ≡ c.status)
      × ((transitioned now old c).reason ≡ c.reason)
      × ((transitioned now old c).observed_generation ≡ c.observed_generation)
transitioned_same now none c = (refl, refl, refl)
transitioned_same now (some old) c = (ground arith, ground arith, ground arith)

module _ (meta : ConditionsApi) where
  open meta use {find_status_condition, set_status_condition}

  pub find-set_self :
      (now : ℕ) (c : Condition) (cs : List Condition)
      → find_status_condition (set_status_condition now c cs) c.condition_type
        ≡ some (transitioned now (find_status_condition cs c.condition_type) c)
  find-set_self now c cs =
      rw (meta.find-set now c cs c.condition_type, eq_refl c.condition_type) refl

  pub find-set_ne :
      (now : ℕ) (c : Condition) (cs : List Condition) (t : String)
      → (c.condition_type == t) ≡ false
      → find_status_condition (set_status_condition now c cs) t ≡ find_status_condition cs t
  find-set_ne now c cs t h = rw (meta.find-set now c cs t, h) refl

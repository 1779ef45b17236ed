-- ===== src/Webhooks/Tasks/Updates.antt =====
-- What holds of a task over the updates that the validator admits.
use korifi.Base.{◌≡◌, refl, ◌≢◌, true, false, none, ◌↔◌, ◌⊎◌, inl, inr, arith, ◌∙◌, sym, Bool-cases}
use korifi.Base.Int.{ℤ, pos, negsuc, is_negative, int_eqb}
use korifi.Kube.Conditions.{ConditionsApi}
use korifi.Webhooks.Tasks.{
  Task, succeeded_condition, failed_condition, final_state, cancelation_error, validate_update,
}

int_eqb_iff : (a b : ℤ) → (int_eqb a b ≡ true) ↔ (a ≡ b)
int_eqb_iff (pos m) (pos n) = ground arith
int_eqb_iff (negsuc m) (negsuc n) = ground arith
int_eqb_iff (pos m) (negsuc n) = ground arith
int_eqb_iff (negsuc m) (pos n) = ground arith

module _ (meta : ConditionsApi) where
  open meta use {is_status_condition_true}

  -- The task has neither succeeded nor failed.
  abbrev pub IsUnfinished : Task → Type 0
  IsUnfinished t =
      (is_status_condition_true t.conditions succeeded_condition ≡ false)
      × (is_status_condition_true t.conditions failed_condition ≡ false)

  cancelation_iff : (t : Task) → (cancelation_error (final_state meta t) ≡ none) ↔ IsUnfinished t
  cancelation_iff t =
      elim (Bool-cases (is_status_condition_true t.conditions succeeded_condition)) [
        | inl done ↦ rw done (λ h. cc, λ h. cc)
        | inr open' ↦ elim (Bool-cases (is_status_condition_true t.conditions failed_condition)) [
          | inl failed ↦ rw (open', failed) (λ h. cc, λ h. cc)
          | inr fine ↦ rw (open', fine) (λ h. (refl, refl), λ h. refl)
        ]
      ]

  -- An update of a task that is not being deleted is admitted exactly when the new sequence id is
  -- not negative, is the old one unless that was 0, and a cancelation that the update asks for
  -- comes while the task has neither succeeded nor failed.
  pub validate_update_iff :
      (old new : Task)
      → new.is_deleting ≡ false
      → (validate_update meta old new ≡ none) ↔ (
          (is_negative new.sequence_id ≡ false)
          × ((old.sequence_id ≡ pos 0) ⊎ (new.sequence_id ≡ old.sequence_id))
          × ((old.canceled ≡ true) ⊎ (new.canceled ≡ false) ⊎ IsUnfinished new))
  unfolding validate_update
  validate_update_iff old new live = ground (
    arith,
    int_eqb_iff old.sequence_id (pos 0),
    int_eqb_iff new.sequence_id old.sequence_id,
    cancelation_iff new,
  )

  -- Admitted updates, one after the other, of a task that is not being deleted.
  pub data Updates (first : Task) : Task → Type 0 where
    created : Updates first first
    update :
        (old new : Task)
        → Updates first old
        → new.is_deleting ≡ false
        → validate_update meta old new ≡ none
        → Updates first new

  -- Once a task has a sequence id other than 0, no chain of admitted updates changes it.
  pub sequence_id_fixed :
      {first last : Task}
      → Updates first last
      → first.sequence_id ≢ pos 0
      → last.sequence_id ≡ first.sequence_id
  sequence_id_fixed created set = refl
  sequence_id_fixed {first} (update old new us live admitted) set =
      let same = sequence_id_fixed us set in
      let (_, fixed, _) = (validate_update_iff old new live).0 admitted in
      elim fixed [ inl unset ↦ absurd (set (sym same ∙ unset)) | inr e ↦ e ∙ same ]

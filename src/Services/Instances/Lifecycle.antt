-- ===== src/Services/Instances/Lifecycle.antt =====
-- The lifecycle of a managed service instance, as an abstract machine: what a reconciliation may
-- make of an instance, given what the broker was asked and what it answered.
use korifi.Base.{List, [], ◌∷◌, ◌++◌, ◌≡◌, refl, append-nil, true, false, ◌==◌}
use korifi.Kube.Errors.{ok, err}
use korifi.Services.Broker.{
  BrokerError, ProvisionResponse, LastOperationResponse, is_unrecoverable_error,
}
use korifi.Services.Instances.World.{BrokerCall, provisioned, polled}

pub data Phase : Type 0 where
  pending ready failed : Phase

-- The broker has made the instance: at once, or by an operation that succeeded.
pub data Succeeded : List BrokerCall → Type 0 where
  at_once : (r : ProvisionResponse) → r.is_async ≡ false → Succeeded (provisioned (ok r) ∷ [])
  later :
      (r : ProvisionResponse) (l : LastOperationResponse)
      → r.is_async ≡ true
      → (l.state == "succeeded") ≡ true
      → Succeeded (provisioned (ok r) ∷ polled (ok l) ∷ [])

-- The broker has refused it for good, or its operation failed.
pub data Refused : List BrokerCall → Type 0 where
  refused : (e : BrokerError) → is_unrecoverable_error e ≡ true → Refused (provisioned (err e) ∷ [])
  broken :
      (r : ProvisionResponse) (l : LastOperationResponse)
      → r.is_async ≡ true
      → (l.state == "failed") ≡ true
      → Refused (provisioned (ok r) ∷ polled (ok l) ∷ [])

-- Neither is known: the broker was not asked, did not answer, or its operation goes on.
pub data Waiting : List BrokerCall → Type 0 where
  not_asked : Waiting []
  unanswered :
      (e : BrokerError) → is_unrecoverable_error e ≡ false → Waiting (provisioned (err e) ∷ [])
  unknown :
      (r : ProvisionResponse) (e : BrokerError)
      → r.is_async ≡ true
      → Waiting (provisioned (ok r) ∷ polled (err e) ∷ [])
  in_progress :
      (r : ProvisionResponse) (l : LastOperationResponse)
      → r.is_async ≡ true
      → (l.state == "succeeded") ≡ false
      → (l.state == "failed") ≡ false
      → Waiting (provisioned (ok r) ∷ polled (ok l) ∷ [])

pub data Moves : Phase → List BrokerCall → Phase → Type 0 where
  succeed : {calls : List BrokerCall} → Succeeded calls → Moves Phase.pending calls Phase.ready
  refuse : {calls : List BrokerCall} → Refused calls → Moves Phase.pending calls Phase.failed
  wait : {calls : List BrokerCall} → Waiting calls → Moves Phase.pending calls Phase.pending
  keep : Moves Phase.ready [] Phase.ready
  lose : Moves Phase.ready [] Phase.pending
  stay_failed : Moves Phase.failed [] Phase.failed

-- Moves one after the other, with the calls of all of them.
pub data Course : Phase → List BrokerCall → Phase → Type 0 where
  here : {p : Phase} → Course p [] p
  then_moves :
      {p q r : Phase} {before calls : List BrokerCall}
      → Course p before q
      → Moves q calls r
      → Course p (before ++ calls) r

-- Nothing moves a failed instance, and the broker is not asked.
stays :
    {p q : Phase} {calls : List BrokerCall}
    → Moves p calls q
    → p ≡ Phase.failed
    → (calls ≡ []) × (q ≡ Phase.failed)
stays (succeed done) is = cc
stays (refuse denied) is = cc
stays (wait on) is = cc
stays keep is = cc
stays lose is = cc
stays stay_failed is = (refl, refl)

pub failed_stays :
    {p q : Phase} {calls : List BrokerCall}
    → Course p calls q
    → p ≡ Phase.failed
    → (calls ≡ []) × (q ≡ Phase.failed)
failed_stays here is = (refl, is)
failed_stays (then_moves path move) is =
    let (silent, still) = failed_stays path is in
    let (silent', still') = stays move still in (rw (silent, silent') refl, still')

-- Among the calls are ones, next to each other, by which the broker has made the instance.
pub Made : List BrokerCall → Type 0
Made calls =
    (before made rest : List BrokerCall) × (calls ≡ before ++ made ++ rest) × Succeeded made

-- Only they make a pending instance ready.
pub ready-Made :
    {p q : Phase} {calls : List BrokerCall}
    → Course p calls q
    → p ≡ Phase.pending
    → q ≡ Phase.ready
    → Made calls
unfolding Made
ready-Made here is is' = cc
ready-Made (then_moves {before} {calls = made} path (succeed done)) is is' =
    (before, made, [], rw append-nil refl, done)
ready-Made (then_moves path (refuse denied)) is is' = cc
ready-Made (then_moves path (wait on)) is is' = cc
ready-Made (then_moves path keep) is is' =
    let (before, made, rest, same, done) = ready-Made path is refl in
    (before, made, rest, rw append-nil same, done)
ready-Made (then_moves path lose) is is' = cc
ready-Made (then_moves path stay_failed) is is' = cc

-- ===== src/Activation/Runtime.antt =====
-- `ActivationRuntime` and `activate_with_clock` of src/workload/activation.rs, over a state that the
-- runtime changes.
use komizo.Prelude.{Bool, true, false, Option, none, some, Text}
use komizo.Prelude.Int.{ℤ}
use komizo.Prelude.Result.{
  Fault, joined, owner_stopped, readiness_unspecified, reconciliation, Result, ok, err,
}
use komizo.Prelude.Exec.{Exec}
use komizo.Operation.Phase.{
  Phase, activating, activated, failed, activation_failed, readiness_failed,
}
use komizo.Operation.Record.{Time}
use komizo.Activation.Request.{ActivationRequest}

pub data Verb : Type 0 where
  up stop : Verb

-- The methods of the trait; `clock` and `cleanup` are the clock of the call and `abort_static`.
pub record Runtime (S : Type 0) : Type 0 where
  pub clock : S → Time × S
  pub verify : ActivationRequest → Exec S (Unit {0})
  pub stopped : ActivationRequest → Exec S Bool
  pub compose : ActivationRequest → Verb → Exec S (Unit {0})
  pub reload_proxy : ActivationRequest → Exec S (Unit {0})
  pub retain : ActivationRequest → Exec S (Unit {0})
  pub ready : ActivationRequest → Exec S (Unit {0})
  pub phase : ActivationRequest → Phase → Exec S (Unit {0})
  pub abort_static : ActivationRequest → S → Option (Result (Unit {0})) × S

-- What `ActivationResult.phase` may say: a phase, or one of the words that are none.
pub data Report : Type 0 where
  refused reconciliation_required acknowledgement_failed : Report
  reached : Phase → Report

pub record ActivationResult : Type 0 where
  pub version : ℤ
  pub id : Text
  pub app : Text
  pub candidate : Text
  pub at : Time
  pub phase : Report
  pub done : Bool
  pub scoped_generation : Text
  pub started : Option Bool

-- The match on the readiness error: `false` is `ready_verified = false`.
unfoldable pub readiness_verdict : Result (Unit {0}) → Result Bool
readiness_verdict (ok t) = ok true
readiness_verdict (err owner_stopped) = ok true
readiness_verdict (err readiness_unspecified) = ok false
readiness_verdict (err e) = err e

unfoldable pub failure : Phase → Phase
failure activating = activation_failed
failure activated = readiness_failed
failure _ = failed

unfoldable pub with_abort : Fault → Option (Result (Unit {0})) → Fault
with_abort e (some (err abort_error)) = joined e abort_error
with_abort e _ = e

-- The report and the error after the failure has been acknowledged, or could not be.
unfoldable pub acknowledged : Fault → Phase → Result (Unit {0}) → Report × Fault
acknowledged e p (ok t) = (reached p, e)
acknowledged e p (err ack_error) = (acknowledgement_failed, joined e ack_error)

unfoldable pub refusal : Fault → Report
refusal reconciliation = reconciliation_required
refusal _ = refused

abbrev pub is_staged : ActivationRequest → Bool
is_staged q = elim q.stage [ none ↦ false | some g ↦ true ]

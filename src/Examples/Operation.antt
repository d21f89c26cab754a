-- ===== src/Examples/Operation.antt =====
-- A deployment of one application, from its admission on.
use komizo.Prelude.{ℕ, ◌≤◌, ◌≡◌, ◌↔◌, refl, ◌⊎◌, true, List, [], ◌∷◌, arith, Text, codes, text_eq}
use komizo.Prelude.Int.{pos}
use komizo.Prelude.Result.{message, ok, err}
use komizo.Identity.{identifier, revision}
use komizo.Operation.Phase.{
  Phase, in_contract, admitted, staging, configured, activating, activated, ready, reconciled,
  legal, phase_of, same, reconciliation_required, rank,
}
use komizo.Operation.Order.{history_bound, reconciliation_required_iff}
use komizo.Operation.Record.{
  Operation, absent, holds, Machine, Entry, written, unsynced, record_phase, plan, against, admit,
  hex, identity, write_private_json, fenced, late, succeed, fresh,
}
use komizo.Operation.Advance.{Continues, Admits, record_advances}
use komizo.Operation.Retry.{record_phase-again}
use komizo.Operation.History.{
  FencedHistory, DrawnHistory, Step, Holds, JournalIsValid, SixteenBytes, fence_holds,
  history-IsValid,
}

abbrev pub app_name : Text
app_name = codes "mailroom"

abbrev pub commit : Text
commit = codes "aaaaaaaaaaaaaaaaaaaaaaaaaaaaaaaaaaaaaaaa"

abbrev pub serving : Text
serving = codes "bbbbbbbbbbbbbbbbbbbbbbbbbbbbbbbbbbbbbbbb"

abbrev pub random_bytes : List ℕ
random_bytes = 0 ∷ 1 ∷ 2 ∷ 3 ∷ 4 ∷ 5 ∷ 6 ∷ 7 ∷ 8 ∷ 9 ∷ 10 ∷ 11 ∷ 12 ∷ 13 ∷ 14 ∷ 255 ∷ []

abbrev pub machine : Machine
machine = record { entropy = ok random_bytes; disk = written }

abbrev pub enter : Phase → ℕ → Entry
enter p now = record {
  app = app_name;
  candidate = commit;
  previous = serving;
  phase = p;
  now = now;
}

abbrev pub operation_at : Phase → ℕ → Operation
operation_at p now = record {
  id = codes "000102030405060708090a0b0c0d0eff";
  started_at = 100;
  deadline = 1500000000100;
  version = pos 1;
  app = app_name;
  candidate = commit;
  previous = serving;
  phase = p;
  at = now;
}

-- The first record draws the identity and sets the deadline.
admission :
    record_phase machine (enter admitted 100) absent ≡ (ok tt, holds (operation_at admitted 100))
unfolding record_phase plan in_contract against fresh admit identity hex identifier revision same
    text_eq write_private_json
admission = refl

moved :
    record_phase machine (enter staging 200) (holds (operation_at admitted 100))
    ≡ (ok tt, holds (operation_at staging 200))
unfolding record_phase plan in_contract against succeed admit identifier revision same text_eq
    write_private_json legal
moved = refl

-- After the deadline only failures and the reconciliation are recorded.
too_late :
    record_phase machine (enter staging 1500000000101) (holds (operation_at admitted 100))
    ≡ (err (message "deployment operation deadline expired"), holds (operation_at admitted 100))
unfolding record_phase plan in_contract against succeed admit identifier revision same text_eq legal
    late
too_late = refl

-- Another version is not admitted over an interrupted one.
fenced_admission :
    record_phase machine (enter admitted 300) (holds (operation_at configured 200)) ≡ (
      err (message "interrupted activation needs reconciliation before another version"),
      holds (operation_at configured 200),
    )
unfolding record_phase plan in_contract against succeed admit identifier revision same text_eq
    fenced
fenced_admission = refl

-- A failure while activating is recorded as `activation_failed`.
renamed_failure : phase_of (codes "activation_failed") ≡ Phase.activation_failed
unfolding phase_of
renamed_failure = refl

history_bound_example : 5 ≤ rank admitted
unfolding legal text_eq
history_bound_example =
    history_bound admitted (staging ∷ configured ∷ activating ∷ activated ∷ ready ∷ [])
      (refl, λ e. cc, (refl, λ e. cc, (refl, λ e. cc, (refl, λ e. cc, (refl, λ e. cc, tt)))))

reconciliation_required_iff_example :
    (reconciliation_required configured ≡ true) ↔ (legal configured reconciled ≡ true)
reconciliation_required_iff_example = reconciliation_required_iff configured (λ e. cc)

record_advances_example :
    (op : Operation) × (holds (operation_at staging 200) ≡ holds op)
    × (Continues (enter staging 200) (operation_at admitted 100) op
        ⊎ Admits (enter staging 200) (operation_at admitted 100) op)
record_advances_example =
    record_advances machine (enter staging 200) (operation_at admitted 100)
      (holds (operation_at staging 200)) moved

-- An admission is tried while the operation is configured, and refused.
fence_holds_example : Holds (operation_at configured 200) (holds (operation_at configured 200))
unfolding fenced
fence_holds_example = fence_holds (operation_at configured 200) (
    FencedHistory.next FencedHistory.start refl
      (Step.call machine (enter admitted 300) (λ i. (fenced_admission i).1)))

machine-SixteenBytes : SixteenBytes machine
machine-SixteenBytes bytes e = (ground arith, ground arith)

history-IsValid_example : JournalIsValid (holds (operation_at admitted 100))
history-IsValid_example = history-IsValid (
    DrawnHistory.next DrawnHistory.start machine (enter admitted 100) machine-SixteenBytes
      (λ i. (admission i).1))

-- The disk fails after the rename.
abbrev failing_machine : Machine
failing_machine = record { entropy = ok random_bytes; disk = unsynced (message "sync") }

staged :
    plan failing_machine (enter staging 200) (holds (operation_at admitted 100))
    ≡ ok (operation_at staging 200)
unfolding plan identifier revision in_contract against succeed same legal admit text_eq
staged = refl

record_phase-again_example :
    record_phase machine
      (enter staging 300)
      (record_phase failing_machine (enter staging 200) (holds (operation_at admitted 100))).1
    ≡ (ok tt, holds (operation_at staging 300))
record_phase-again_example =
    record_phase-again (enter staging 200) 300 failing_machine machine (operation_at admitted 100)
      (operation_at staging 200) refl staged (unfold same in refl) (unfold same in refl) refl

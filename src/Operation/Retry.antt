-- ===== src/Operation/Retry.antt =====
-- `record` of src/workload/operation.rs called again after its write failed.
use komizo.Prelude.{
  Text, ◌≡◌, refl, sym, ap, ◌∙◌, inl, inr, true, false, ◌||◌, arith, text_eq_refl, leb,
}
use komizo.Prelude.Result.{ok, ok-injective}
use komizo.Operation.Phase.{admitted, failed, same, same_refl, in_contract, legal}
use komizo.Operation.Record.{
  Operation, Journal, holds, Machine, Entry, Time, written, write_private_json, is_zero, late,
  fresh, effective, succeed, against, admit, plan, valid_entry, record_phase,
}
use mathlib.Core.Path.{subst}
use komizo.Operation.Advance.{plan-parts, admit-other, record_phase-atomic}

module _ (e : Entry) (t : Time) where
  abbrev later : Entry
  later = record e { now = t }

  -- The same call at a later time, over the operation before it.
  succeed-later :
      (old op : Operation)
      → succeed e old ≡ ok op
      → same e.phase admitted ≡ false
      → same e.phase failed ≡ false
      → (is_zero op.deadline || leb t op.deadline || late op.phase) ≡ true
      → succeed later old ≡ ok (record op { at = t })
  unfolding succeed fresh effective
  succeed-later old op h n f late_enough = ground arith

  abbrev moved : Text → Time → Time → Operation
  moved id started_at deadline = record (fresh e) {
    id = id;
    started_at = started_at;
    deadline = deadline;
  }

  succeed-moved :
      (old op : Operation)
      → succeed e old ≡ ok op
      → same e.phase admitted ≡ false
      → same e.phase failed ≡ false
      → op ≡ moved old.id old.started_at old.deadline
  unfolding succeed fresh effective
  succeed-moved old op h n f = ground arith

  -- The same call at a later time, over its own operation.
  succeed-own :
      (id : Text) (started_at deadline : Time)
      → same e.phase admitted ≡ false
      → same e.phase failed ≡ false
      → (is_zero deadline || leb t deadline || late e.phase) ≡ true
      → succeed later (moved id started_at deadline)
        ≡ ok (record (moved id started_at deadline) { at = t })
  unfolding succeed fresh effective legal
  succeed-own id started_at deadline n f late_enough =
      rw
        (
          text_eq_refl e.app,
          f,
          n,
          text_eq_refl e.candidate,
          text_eq_refl e.previous,
          same_refl e.phase,
          late_enough,
        )
        refl

  module _ (m : Machine) where
    plan-later :
        (j : Journal) (op : Operation)
        → valid_entry e ≡ true
        → in_contract e.phase ≡ true
        → against later j ≡ ok op
        → same op.phase admitted ≡ false
        → plan m later j ≡ ok op
    unfolding plan admit
    plan-later j op v c h n = rw (v, c, h, n) refl

    written_plan :
        (j : Journal) (op : Operation)
        → m.disk ≡ written
        → plan m later j ≡ ok op
        → record_phase m later j ≡ (ok tt, holds op)
    unfolding record_phase write_private_json
    written_plan j op w h = rw (h, w) refl

  -- What a plan over an operation moves to is planned again over either file that it can leave.
  plan-again :
      (m m' : Machine) (old op : Operation)
      → plan m e (holds old) ≡ ok op
      → same e.phase admitted ≡ false
      → same e.phase failed ≡ false
      → (is_zero op.deadline || leb t op.deadline || late op.phase) ≡ true
      → (plan m' later (holds old) ≡ ok (record op { at = t }))
        × (plan m' later (holds op) ≡ ok (record op { at = t }))
  unfolding against fresh
  plan-again m m' old op h n f timely =
      let (base, p, q, v, c) = plan-parts m e (holds old) op h in
      let base_moved = succeed-moved old base p n f in
      let base_other : same base.phase admitted ≡ false =
        ap (λ (o : Operation). same o.phase admitted) base_moved ∙ n in
      let same_op = admit-other m e base op q base_other in
      let op_moved = same_op ∙ base_moved in
      let op_other : same op.phase admitted ≡ false =
        ap (λ (o : Operation). same o.phase admitted) same_op ∙ base_other in
      let planned : succeed e old ≡ ok op = p ∙ ap ok (sym same_op) in
      let own : succeed later op ≡ ok (record op { at = t }) =
        subst (λ (o : Operation). succeed later o ≡ ok (record o { at = t })) (sym op_moved)
          (succeed-own old.id old.started_at old.deadline n f (
            subst
              (λ (o : Operation). (is_zero o.deadline || leb t o.deadline || late o.phase) ≡ true)
              op_moved timely)) in
      (
        plan-later m' (holds old) (record op { at = t }) v c
            (succeed-later old op planned n f timely) op_other,
        plan-later m' (holds op) (record op { at = t }) v c own op_other,
      )

  -- Let a call of `record` plan an operation over the one that the file holds, in a phase that is neither
  -- `admitted` nor `failed`, and let its write end in any way. Then the same call made again, at a time
  -- that the deadline allows and with a disk that works, succeeds, and the file holds the operation that
  -- the first call planned with the time of the second.
  pub record_phase-again :
      (m m' : Machine) (old op : Operation)
      → m'.disk ≡ written
      → plan m e (holds old) ≡ ok op
      → same e.phase admitted ≡ false
      → same e.phase failed ≡ false
      → (is_zero op.deadline || leb t op.deadline || late op.phase) ≡ true
      → record_phase m' (record e { now = t }) (record_phase m e (holds old)).1
        ≡ (ok tt, holds (record op { at = t }))
  record_phase-again m m' old op w h n f timely =
      let (over_old, over_own) = plan-again m m' old op h n f timely in
      elim (record_phase-atomic m e (holds old)) [
        | inl kept ↦ rw kept (written_plan m' (holds old) (record op { at = t }) w over_old)
        | inr (other, planned, left) ↦
            let same_op : other ≡ op = ok-injective other op (sym planned ∙ h) in
            rw (left, same_op) (written_plan m' (holds op) (record op { at = t }) w over_own)
      ]

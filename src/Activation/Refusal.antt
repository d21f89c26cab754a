-- ===== src/Activation/Refusal.antt =====
-- What an activation that fails reports: which call was the last one, and what it answered.
use komizo.Prelude.{
  ◌≡◌, ◌≢◌, refl, ◌⊎◌, inl, inr, Bool, true, false, not, some, codes, ◌||◌, arith, text_eq,
  if◌then◌else◌,
}
use komizo.Prelude.Int.{pos, eq_ℤ}
use komizo.Prelude.Result.{Fault, reconciliation, message, Result, ok, err}
use komizo.Operation.Phase.{
  Phase, configured, activating, activated, legal, change, decision, rank, same,
}
use komizo.Operation.Record.{Time}
use komizo.Activation.Request.{ActivationRequest, check}
use komizo.Activation.Runtime.{
  Runtime, is_staged, ActivationResult, Report, reached, refused, reconciliation_required,
  acknowledgement_failed, acknowledged, failure, refusal,
}
use komizo.Activation.Activate.{Run, action, fail, conclude, perform, checked, activate, blank}

-- The report of a recorded failure, by the answer to the call that records it.
abbrev Answers : Phase → Result (Unit {0}) → Report → Type 0
Answers p (ok t) q = q ≡ reached p
Answers p (err f) q = q ≡ acknowledgement_failed

-- The report of a verification that fails with this error.
abbrev Judges : Fault → Report → Type 0
Judges e q =
    ((e ≡ reconciliation) × (q ≡ reconciliation_required)) ⊎ ((e ≢ reconciliation) × (q ≡ refused))

module _ {S : Type 0} (rt : Runtime S) (r : ActivationRequest) where
  -- Nothing but the clock and `verify` was called from `start`, and one of the checks failed.
  abbrev Refuses : (start : S) → Report → (final : S) → Type 0
  Refuses start q final =
      ((q ≡ refused) × (final ≡ (rt.clock start).1))
      ⊎ (((q ≡ refused) × (final ≡ (rt.clock (rt.clock start).1).1))
          ⊎ ((e : Fault) × (rt.verify r (rt.clock (rt.clock start).1).1 ≡ (err e, final))
              × Judges e q))

  -- The action failed, and the last call recorded a failure.
  pub record Acknowledges (q : Report) (final : S) : Type 0 where
    pub start : S
    pub error : Fault
    pub left : Run S
    pub ran : action rt r (record { world = start; phase = configured }) ≡ (err error, left)
    pub failure : Phase
    pub is_failure : decision failure ≡ some (codes "refused")
    pub allowed : (legal left.phase failure ≡ true) ⊎ (rank left.phase ≡ 0)
    pub answer : Result (Unit {0})
    pub last : rt.phase r failure (rt.abort_static r (rt.clock left.world).1).1 ≡ (answer, final)
    pub reports : Answers failure answer q

  -- One outcome: a success, or a failure and its report.
  abbrev pub Faithful : S → (ActivationResult × Result (Unit {0})) × S → Type 0
  Faithful start ((result, ok t), final) = result.done ≡ true
  Faithful start ((result, err e), final) =
      (result.done ≡ false) × (Refuses start result.phase final ⊎ Acknowledges result.phase final)

  failure-decision : (p : Phase) → decision (failure p) ≡ some (codes "refused")
  unfolding failure decision
  failure-decision activating = refl
  failure-decision activated = refl
  failure-decision _ = refl

  failure-legal : (p : Phase) → (legal p (failure p) ≡ true) ⊎ (rank p ≡ 0)
  unfolding failure legal change rank same text_eq
  failure-legal _ = ground arith

  acknowledged-Answers :
      (e : Fault) (p : Phase) (a : Result (Unit {0})) → Answers p a (acknowledged e p a).0
  unfolding acknowledged
  acknowledged-Answers e p (ok t) = refl
  acknowledged-Answers e p (err f) = refl

  refusal-Judges : (e : Fault) → Judges e (refusal e)
  unfolding refusal
  refusal-Judges reconciliation = inl (refl, refl)
  refusal-Judges _ = inr (λ h. absurd (cc h), refl)

  conclude-Faithful :
      (start s : S) (out : Result Bool × Run S)
      → action rt r (record { world = s; phase = configured }) ≡ out
      → Faithful start (conclude rt r out)
  unfolding conclude blank fail
  conclude-Faithful start s (ok b, st) ran = refl
  conclude-Faithful start s (err e, st) ran = (
    refl,
    inr (record {
      start = s;
      error = e;
      left = st;
      ran = ran;
      failure = failure st.phase;
      is_failure = failure-decision st.phase;
      allowed = failure-legal st.phase;
      answer = (rt.phase r (failure st.phase) (rt.abort_static r (rt.clock st.world).1).1).0;
      last = refl;
      reports = acknowledged-Answers _ (failure st.phase) _;
    }),
  )

  perform-Faithful :
      (at : Time) (start : S) (out : Result (Unit {0}) × S)
      → rt.verify r (rt.clock (rt.clock start).1).1 ≡ out
      → Faithful start (perform rt r at out)
  unfolding perform blank
  perform-Faithful at start (err e, s) verified =
      (refl, inl (inr (inr (e, verified, refusal-Judges e))))
  perform-Faithful at start (ok t, s) verified = conclude-Faithful start s _ refl

  checked-Faithful :
      (at : Time) (start : S) (c : Result (Unit {0}))
      → Faithful start (checked rt r at c (rt.clock (rt.clock start).1).1)
  unfolding blank
  checked-Faithful at start (err e) = (refl, inl (inr (inl (refl, refl))))
  checked-Faithful at start (ok t) = perform-Faithful at start _ refl

  -- An activation says `ok` exactly when it returns no error. When it returns one, either nothing
  -- but the clock and `verify` was called, and the report is `reconciliation_required` if `verify` failed
  -- for that reason and `refused` otherwise; or the action failed and the last call, after the
  -- clock and `abort_static`, records a phase that the contract calls refused, one that is legal after
  -- the phase that the action was in unless that was a final one, and the report is that phase if the call succeeded and `acknowledgement_failed` if not.
  pub activate-Faithful : (s : S) → Faithful s (activate rt r s)
  unfolding activate blank
  activate-Faithful s =
      elim (not (eq_ℤ r.version (pos 1)) || is_staged r)
        as (λ b. Faithful s (
          if b
          then (
            (
              blank rt r (rt.clock s).0 refused,
              err (message "staging must complete before activation"),
            ),
            (rt.clock s).1,
          )
          else checked rt r (rt.clock s).0 (check r (rt.clock (rt.clock s).1).0)
              (rt.clock (rt.clock s).1).1)) [
                | true ↦ (refl, inl (inl (refl, refl)))
                | false ↦ checked-Faithful _ s _
              ]

-- ===== src/Activation/Success.antt =====
-- What an activation that succeeds has done last: it recorded the phase that it reports.
use komizo.Prelude.{
  ◌≡◌, refl, ◌⊎◌, inl, inr, Bool, true, false, not, ◌||◌, arith, some, if◌then◌else◌, Bool-cases,
}
use komizo.Prelude.Int.{pos, eq_ℤ}
use komizo.Prelude.Result.{Fault, Result, ok, err}
use komizo.Prelude.Exec.{Exec, pure, >>=-eq-ok, >>-eq-ok}
use komizo.Operation.Phase.{Phase, configured, activated, ready, prepared_stopped}
use komizo.Operation.Record.{Time}
use komizo.Activation.Request.{ActivationRequest}
use komizo.Activation.Runtime.{Runtime, stop, is_staged, ActivationResult, reached}
use komizo.Activation.Activate.{
  Run, effect, set_phase, readiness, start_up, close, finish, settle, action, conclude, perform,
  checked, activate, blank,
}

-- The phases that a success may end in, and whether the workload is stopped there.
abbrev pub Ending : Bool → Phase → Type 0
Ending stopped p =
    ((stopped ≡ true) × (p ≡ prepared_stopped))
    ⊎ ((stopped ≡ false) × ((p ≡ ready) ⊎ (p ≡ activated)))

err_is_no_success :
    {A S : Type 0} {a b : A} {e : Fault} {s s' : S}
    → ◌≡◌ {A = (A × Result (Unit {0})) × S} ((a, err e), s) ((b, ok tt), s')
    → ⊥
err_is_no_success h = ground arith

module _ {S : Type 0} (rt : Runtime S) (r : ActivationRequest) where
  -- The last effect before the state `s` recorded the phase `p`, and succeeded.
  pub record RecordedLast (p : Phase) (s : S) : Type 0 where
    pub before : S
    pub written : rt.phase r p before ≡ (ok tt, s)

  pub record Ends (stopped : Bool) (st : Run S) : Type 0 where
    pub last : RecordedLast st.phase st.world
    pub ending : Ending stopped st.phase

  close-Ends :
      (b x : Bool) (p : Phase) (st st' : Run S)
      → Ending b p
      → close rt r b p st ≡ (ok x, st')
      → Ends x st'
  unfolding close
  close-Ends b x p st st' e h =
      let (_, _, h1) = >>-eq-ok (set_phase p) _ st st' h in
      let (_, f, h2) = >>-eq-ok (effect (rt.phase r p)) (pure b) (set_phase p st).1 st' h1 in
      close-parts b x p st st' e f h2
    where
      close-parts :
          (b x : Bool) (p : Phase) (st st' : Run S)
          → Ending b p
          → (effect (rt.phase r p) (set_phase p st).1).0 ≡ ok tt
          → pure b (effect (rt.phase r p) (set_phase p st).1).1 ≡ (ok x, st')
          → Ends x st'
      close-parts b x p st st' e f h =
          unfold effect set_phase pure in
          record {
            last = record { before = st.world; written = ground arith };
            ending = ground arith;
          }

  if-Ends :
      (t x : Bool) (m n : Exec (Run S) Bool) (st st' : Run S)
      → (m st ≡ (ok x, st') → Ends x st')
      → (n st ≡ (ok x, st') → Ends x st')
      → (if t then m else n) st ≡ (ok x, st')
      → Ends x st'
  if-Ends true x m n st st' km kn h = km h
  if-Ends false x m n st st' km kn h = kn h

  live-Ending : (v : Bool) → Ending false (if v then ready else activated)
  live-Ending true = inr (refl, inl refl)
  live-Ending false = inr (refl, inr refl)

  finish-Ends : (x : Bool) (st st' : Run S) → finish rt r st ≡ (ok x, st') → Ends x st'
  unfolding finish
  finish-Ends x st st' h =
      let (_, _, h1) = >>-eq-ok (set_phase activated) _ st st' h in
      let (_, _, h2) = >>-eq-ok (effect (rt.phase r activated)) _ _ st' h1 in
      let (v, _, h3) = >>=-eq-ok (effect (readiness (rt.ready r))) _ _ st' h2 in
      let (b, _, h4) = >>=-eq-ok (effect (rt.stopped r)) _ _ st' h3 in
      if-Ends b x _ _ _ st'
        (λ h5.
          let (_, _, h6) = >>-eq-ok (effect (rt.compose r stop)) _ _ st' h5 in
          close-Ends true x prepared_stopped _ st' (inl (refl, refl)) h6)
        (λ h5. close-Ends false x _ _ st' (live-Ending v) h5) h4

  settle-Ends : (b x : Bool) (st st' : Run S) → settle rt r b st ≡ (ok x, st') → Ends x st'
  unfolding settle
  settle-Ends b x st st' h =
      let (_, _, h1) = >>-eq-ok (effect (rt.reload_proxy r)) _ st st' h in
      let (_, _, h2) = >>-eq-ok (effect (rt.retain r)) _ _ st' h1 in
      if-Ends b x _ _ _ st' (λ h3. close-Ends true x prepared_stopped _ st' (inl (refl, refl)) h3)
        (λ h3. finish-Ends x _ st' h3) h2

  action-Ends : (x : Bool) (st st' : Run S) → action rt r st ≡ (ok x, st') → Ends x st'
  unfolding action
  action-Ends x st st' h =
      let (b, _, h1) = >>=-eq-ok (effect (rt.stopped r)) _ st st' h in
      let (still, _, h2) = >>=-eq-ok (if b then pure true else start_up rt r) _ _ st' h1 in
      settle-Ends still x _ st' h2

  -- A report of success, and the state in which it was made.
  pub record Reports (result : ActivationResult) (s : S) : Type 0 where
    pub stopped : Bool
    pub phase : Phase
    pub reported : result.phase ≡ reached phase
    pub done : result.done ≡ true
    pub started : result.started ≡ some (not stopped)
    pub ending : Ending stopped phase
    pub before_clock : S
    pub last : RecordedLast phase before_clock
    pub clock : (rt.clock before_clock).1 ≡ s

  conclude-Reports :
      (out : Result Bool × Run S) (result : ActivationResult) (s : S)
      → ((x : Bool) → out.0 ≡ ok x → Ends x out.1)
      → conclude rt r out ≡ ((result, ok tt), s)
      → Reports result s
  unfolding conclude blank
  conclude-Reports (ok x, st) result s ends h =
      let e = ends x refl in
      record {
        stopped = x;
        phase = st.phase;
        reported = ground arith;
        done = ground arith;
        started = ground arith;
        ending = e.ending;
        before_clock = st.world;
        last = e.last;
        clock = ground arith;
      }
  conclude-Reports (err e, st) result s ends h = absurd (err_is_no_success h)

  perform-Reports :
      (at : Time) (out : Result (Unit {0}) × S) (result : ActivationResult) (s : S)
      → perform rt r at out ≡ ((result, ok tt), s)
      → Reports result s
  unfolding perform
  perform-Reports at (err e, s') result s h = absurd (err_is_no_success h)
  perform-Reports at (ok t, s') result s h =
      conclude-Reports (action rt r (record { world = s'; phase = configured })) result s
        (λ x e.
          action-Ends x (record { world = s'; phase = configured }) _
            (λ i. (e i, (action rt r (record { world = s'; phase = configured })).1)))
        h

  checked-Reports :
      (at : Time) (c : Result (Unit {0})) (s' : S) (result : ActivationResult) (s : S)
      → checked rt r at c s' ≡ ((result, ok tt), s)
      → Reports result s
  checked-Reports at (err e) s' result s h = absurd (err_is_no_success h)
  checked-Reports at (ok t) s' result s h = perform-Reports at (rt.verify r s') result s h

  -- An activation without an error reports `ready`, `activated` or `prepared_stopped`, says whether the
  -- workload runs, and its last effect but the clock recorded that very phase.
  pub activate_ok :
      (s s' : S) (result : ActivationResult)
      → activate rt r s' ≡ ((result, ok tt), s)
      → Reports result s
  unfolding activate
  activate_ok s s' result h = elim (Bool-cases (not (eq_ℤ r.version (pos 1)) || is_staged r)) [
    | inl e ↦ absurd (err_is_no_success (rw e at h))
    | inr e ↦ checked-Reports _ _ _ result s (rw e at h)
  ]

-- ===== src/Examples/Activation.antt =====
-- One activation on a machine whose effects all succeed, and on one whose owner has stopped the workload.
use komizo.Prelude.{
  ℕ, ◌+◌, ◌≡◌, ◌≢◌, refl, Bool, true, false, [], arith, Text, codes, text_eq, some, none,
}
use komizo.Prelude.Int.{pos}
use komizo.Prelude.Result.{message, err, ok}
use komizo.Prelude.Exec.{◌>>=◌, ◌>>◌}
use komizo.Identity.{identifier, revision, operation_identity, content_identity}
use komizo.CleanPath.{is_absolute, clean_path, file_name}
use komizo.Operation.Phase.{Phase, in_contract, configured, ready, same, legal}
use komizo.Operation.Record.{
  holds, Time, record_phase, plan, against, succeed, admit, write_private_json,
}
use komizo.Operation.History.{SameDeployment-refl}
use komizo.Activation.Request.{
  ActivationRequest, check, check_identity, check_version, common_identity, configured_identity,
}
use komizo.Activation.Runtime.{
  Runtime, Verb, up, stop, reached, ActivationResult, readiness_verdict,
}
use komizo.Activation.Activate.{
  activate, perform, conclude, action, start_up, settle, finish, close, readiness, effect,
  set_phase, blank,
}
use komizo.Activation.Preserved.{Methods, owner_stop_holds}
use komizo.Activation.Success.{Reports, activate_ok}
use komizo.Activation.Host.{
  HostEffects, HostState, host_runtime, host_phase, host_verify, outside, operation, record_now,
  retire, entry, accepts,
}
use komizo.Operation.Order.{here}
use komizo.Activation.Journal.{Onward, activate-Onward}
use komizo.Activation.Accepted.{Accepted, activate-Accepted}
use komizo.Activation.Refusal.{Faithful, activate-Faithful}
use komizo.Examples.Operation.{app_name, commit, serving, machine, operation_at}

abbrev pub digest : Text
digest = codes "0123456789abcdef0123456789abcdef0123456789abcdef0123456789abcdef"

abbrev request : ActivationRequest
request = record {
  version = pos 1;
  id = codes "000102030405060708090a0b0c0d0eff";
  app = app_name;
  candidate = commit;
  previous = serving;
  policy_sha256 = digest;
  compose_sha256 = digest;
  route_sha256 = digest;
  route_path = codes "/srv/proxy/routes/mailroom.caddy";
  proxy = codes "proxy";
  deadline = 1500000000100;
  scoped_generation = [];
  stage = none;
}

-- The state is the clock and whether the owner stopped the workload.
abbrev pub World : Type 0
World = ℕ × Bool

abbrev pub calm : HostEffects World
calm = record {
  clock = λ w. (w.0, (w.0 + 1, w.1));
  machine = λ w. (machine, w);
  static_serving = λ w. false;
  verify_inputs = λ r w. (ok tt, w);
  stopped = λ r w. (ok w.1, w);
  compose = λ r v w. (ok tt, w);
  reload_proxy = λ r w. (ok tt, w);
  retain = λ r w. (ok tt, w);
  ready = λ r w. (ok tt, w);
  accept_static = λ r w. (ok tt, w);
  retire_static = λ r p w. w;
  abort_static = λ r w. (none, w);
}

abbrev state_at : Phase → ℕ → Bool → HostState World
state_at p now stopped = record { journal = holds (operation_at p now); world = (now, stopped) }

abbrev success : Phase → Time → Bool → ActivationResult
success p at started = record {
  version = pos 1;
  id = request.id;
  app = app_name;
  candidate = commit;
  at = at;
  phase = reached p;
  done = true;
  scoped_generation = [];
  started = some started;
}

abbrev end_ready : HostState World
end_ready = record { journal = holds (operation_at ready 204); world = (206, false) }

runs :
    activate (host_runtime calm) request (state_at configured 200 false)
    ≡ ((success ready 205 true, ok tt), end_ready)
unfolding activate perform conclude action start_up settle finish close readiness effect set_phase
    blank host_phase host_verify check check_identity common_identity operation_identity identifier
    revision content_identity is_absolute text_eq clean_path file_name check_version
    configured_identity ◌>>=◌ ◌>>◌ operation same outside accepts entry record_now retire
    readiness_verdict in_contract legal admit against plan record_phase succeed write_private_json
runs = refl

activate_ok_example : Reports (host_runtime calm) request (success ready 205 true) end_ready
activate_ok_example =
    activate_ok (host_runtime calm) request end_ready (state_at configured 200 false)
      (success ready 205 true) runs

activate-Accepted_example :
    (p : Phase) × (reached ready ≡ reached p) × Accepted request p (holds (operation_at ready 204))
activate-Accepted_example =
    activate-Accepted calm request (state_at configured 200 false) end_ready
      (success ready 205 true) runs

activate-Onward_example :
    Onward
      (operation_at configured 200)
      (activate (host_runtime calm) request (state_at configured 200 true)).1.journal
activate-Onward_example =
    activate-Onward calm request (operation_at configured 200) (state_at configured 200 true)
      (SameDeployment-refl (operation_at configured 200), here)

-- Whether the owner stopped the workload, and whether it runs.
abbrev Workload : Type 0
Workload = Bool × Bool

abbrev starts : Verb → Workload → Workload
starts up w = (w.0, true)
starts stop w = (w.0, false)

abbrev small : Runtime Workload
small = record {
  clock = λ w. (100, w);
  verify = λ r w. (ok tt, w);
  stopped = λ r w. (ok w.0, w);
  compose = λ r v w. (ok tt, starts v w);
  reload_proxy = λ r w. (ok tt, w);
  retain = λ r w. (ok tt, w);
  ready = λ r w. (ok tt, w);
  phase = λ r p w. (ok tt, w);
  abort_static = λ r w. (none, w);
}

abbrev IsHalted : Workload → Type 0
IsHalted w = (w.0 ≡ true) × (w.1 ≡ false)

small-Methods : Methods IsHalted small request
small-Methods = record {
  clock = λ s h. h;
  verify = record { at = λ s h. h };
  stopped = record { at = λ s h. h };
  stop = record { at = λ s h. (h.0, refl) };
  reload_proxy = record { at = λ s h. h };
  retain = record { at = λ s h. h };
  ready = record { at = λ s h. h };
  phase = λ p n. record { at = λ s h. h };
  abort_static = λ s h. h;
}

halted_answers : (s : Workload) → IsHalted s → (small.stopped request s).0 ≢ ok false
halted_answers s h e = ground arith

owner_stop_holds_example : IsHalted (activate small request (true, false)).1
owner_stop_holds_example =
    owner_stop_holds IsHalted small request small-Methods halted_answers (true, false) (refl, refl)

-- The proxy refuses its configuration.
abbrev broken : Runtime Workload
broken = record small { reload_proxy = λ r w. (err (message "refused"), w) }

activate-Faithful_example :
    Faithful broken request (false, false) (activate broken request (false, false))
activate-Faithful_example = activate-Faithful broken request (false, false)

-- ===== src/Inbox/Kept.antt =====
-- Each step of the inbox keeps the invariant: `apply_pending_with_clock` and `apply_one` of
-- src/host/inbox.rs, with `prune_results` of src/host/results.rs.
use komizo.Prelude.{
  ℕ, suc, ◌+◌, ◌≡◌, refl, sym, Bool, true, false, not, ◌&&◌, ◌||◌, Option, none, some, List, [],
  ◌∷◌, ◌++◌, arith, leb, if◌then◌else◌, take, is_empty, All, Text, codes,
}
use komizo.Prelude.Result.{Fault, said, Result, ok, err, named, is_ok}
use mathlib.Core.Path.{subst}
use komizo.Prelude.Sort.{le_text, sort_by}
use komizo.Operation.Record.{Time}
use komizo.Inbox.Command.{Command, Verified, verify_command, in_window, valid_command_id}
use komizo.Inbox.Results.{CommandResult, applied}
use komizo.Inbox.Apply.{
  max_scan, max_inbox, Entry, Effects, Box, AgentConf, result_for, detail_of, Waiting, pending,
  is_stale, tick, complain, write, claim, execute, record_outcome, on_claim, claim_and_perform,
  reject, on_verified, on_raw, apply_one, apply_each, expire, clean, apply_waiting, clean_and_apply,
  apply_pending, prune,
}
use komizo.Inbox.Sound.{expiry, Held, Differs, IsSound, IsSound-tick, write_result-IsSound}
use komizo.Inbox.Claimed.{
  claim_result-Claims, claimed-Differs, claimed-Held, perform-IsSound, prune-IsSound,
}
use komizo.Inbox.Genuine.{verify_command-IsGenuine}

abbrev pub Sound : {W : Type 0} → Box W → Type 0
Sound st = IsSound st.results st.performed st.now

module _ {W : Type 0} (x : Effects W) where
  tick-Sound : (st : Box W) → Sound st → Sound (tick x st)
  unfolding tick
  tick-Sound st h = IsSound-tick st.results st.performed st.now (x.elapsed st.world).0 h

  complain-Sound : (e : Fault) (st : Box W) → Sound st → Sound (complain x e st)
  unfolding complain
  complain-Sound e st h = h

  write-Sound : (result : CommandResult) (st : Box W) → Sound st → Sound (write x result st).1
  unfolding write
  write-Sound result st h =
      write_result-IsSound x.lossy st.performed st.now st.results h (x.disk st.world).0 result

  -- The command was claimed, and no other one is the same.
  abbrev Ready : Command → Box W → Type 0
  Ready c st = Held st.results c × All (Differs c) st.performed

  record_outcome-Sound :
      (c : Command) (r : Result Unit) (st : Box W) → Sound st → Sound (record_outcome x c (r, st))
  unfolding record_outcome tick
  record_outcome-Sound c r st h =
      let (t, w) = x.elapsed st.world in
      let st' : Box W = record st { now = st.now + t; world = w } in
      let result = result_for c.id c.op st'.now (is_ok r) (detail_of x.render r) in
      complained (codes "could not record the result of " ++ c.id) (write x result st')
        (write-Sound result st' (tick-Sound st h))
    where
      complained :
          (what : Text) (wrote : Result (Unit {0}) × Box W)
          → Sound wrote.1
          → Sound (elim wrote.0 [ ok t ↦ wrote.1 | err e ↦ complain x (named what e) wrote.1 ])
      complained what (ok t, st) h = h
      complained what (err e, st) h = complain-Sound (named what e) st h

  on_claim-Sound :
      (v : Verified) (r : Result Bool) (st : Box W)
      → Sound st
      → (r ≡ ok true → Ready v.command st)
      → Sound (on_claim x v (r, st))
  unfolding on_claim execute complain
  on_claim-Sound v (ok true) st h ready =
      let (held, differs) = ready refl in
      record_outcome-Sound v.command _ _
        (perform-IsSound st.results st.performed st.now v.command h held differs)
  on_claim-Sound v (ok false) st h ready = h
  on_claim-Sound v (err e) st h ready = h

  claim_and_perform-Sound :
      (v : Verified) (st : Box W)
      → Sound st
      → in_window st.now (expiry v.command) ≡ true
      → Sound (claim_and_perform x v st)
  unfolding claim_and_perform claim tick result_for
  claim_and_perform-Sound v st h w =
      let st' = tick x st in
      let (claimed, first) =
        claim_result-Claims x.lossy st.performed st'.now st.results (tick-Sound st h)
          (x.disk st'.world).0
          (result_for v.command.id v.command.op st'.now false (codes "applying")) in
      on_claim-Sound v _ _ claimed λ e.
        let (free, result, at) = first e in
        (
          subst (λ results. Held results v.command) (sym at)
              (claimed-Held st.results result st.now st'.now v.command w (omega arith)),
          claimed-Differs st.results st.performed st.now v.command h w free,
        )

  reject-Sound : (c : Command) (text : Text) (st : Box W) → Sound st → Sound (reject x c text st)
  unfolding reject complain
  reject-Sound c text st h =
      let st' = complain x (named (codes "refusing a command") (said text)) st in
      let st'' = tick x st' in
      let result = result_for c.id c.op st''.now false text in
      elim (is_empty c.id) as (λ b. Sound (if b then st' else (write x result st'').1)) [
        | true ↦ h
        | false ↦ write-Sound result st'' (tick-Sound st' h)
      ]

  supported-Sound :
      (v : Verified) (st : Box W)
      → Sound st
      → in_window st.now (expiry v.command) ≡ true
      → Sound (if applied st.results v.command.id then st else claim_and_perform x v st)
  supported-Sound v st h w =
      elim (applied st.results v.command.id)
        as (λ b. Sound (if b then st else claim_and_perform x v st)) [
          | true ↦ h
          | false ↦ claim_and_perform-Sound v st h w
        ]

  on_verified-Sound :
      (r : Result Verified) (st : Box W)
      → Sound st
      → ((v : Verified)
          → r ≡ ok v
          → v.unsupported ≡ none
          → in_window st.now (expiry v.command) ≡ true)
      → Sound (on_verified x r st)
  unfolding on_verified complain
  on_verified-Sound (err e) st h w = h
  on_verified-Sound (ok v) st h w =
      elim v.unsupported
          as (λ o.
            (o ≡ none → in_window st.now (expiry v.command) ≡ true)
            → Sound (elim o [
              | some text ↦ reject x v.command text st
              | none ↦ if applied st.results v.command.id then st else claim_and_perform x v st
            ])) [
              | some text ↦ λ w. reject-Sound v.command text st h
              | none ↦ λ w. supported-Sound v st h (w refl)
            ]
        (w v refl)

  on_raw-Sound :
      (keys : List (List ℕ)) (server : Text) (raw : Result (Option (List ℕ))) (st : Box W)
      → Sound st
      → Sound (on_raw x keys server raw st)
  unfolding on_raw
  on_raw-Sound keys server (ok (some raw)) st h =
      let st' = tick x st in
      on_verified-Sound (verify_command x.codec keys raw server st'.now) st' (tick-Sound st h)
        (λ v e u. (verify_command-IsGenuine x.codec keys raw server st'.now v e u).current)
  on_raw-Sound keys server (ok none) st h = h
  on_raw-Sound keys server (err e) st h = h

  apply_one-Sound :
      (keys : List (List ℕ)) (server : Text) (p : Waiting) (st : Box W)
      → Sound st
      → Sound (apply_one x keys server p st)
  unfolding apply_one
  apply_one-Sound keys server (modified, name) st h =
      let (raw, w) = x.raw name st.world in
      let file : Entry = record { name = name; modified = some modified; directory = false } in
      on_raw-Sound keys server raw (record st { world = x.remove file w }) h

  apply_each-Sound :
      (keys : List (List ℕ)) (server : Text) (ps : List Waiting) (st : Box W)
      → Sound st
      → Sound (apply_each x keys server ps st)
  unfolding apply_each
  apply_each-Sound keys server [] st h = h
  apply_each-Sound keys server (p ∷ ps) st h =
      apply_each-Sound keys server ps (apply_one x keys server p st)
        (apply_one-Sound keys server p st h)

  expire-Sound :
      (e : Entry) (stale : Bool) (now : Time) (st : Box W)
      → Sound st
      → Sound (expire x e stale now st)
  unfolding expire
  expire-Sound e stale now st h =
      let result = result_for e.name [] now false (
        if stale
        then codes "this box did not get to this command before it expired"
        else codes "this box had too many commands waiting") in
      elim (not e.directory && valid_command_id e.name && not (applied st.results e.name))
        as (λ b. Sound (if b then (write x result st).1 else st)) [
          | true ↦ write-Sound result st h
          | false ↦ h
        ]

  clean-Sound :
      (now : Time) (kept : ℕ) (es : List Entry) (st : Box W)
      → Sound st
      → Sound (clean x now kept es st)
  unfolding clean
  clean-Sound now kept [] st h = h
  clean-Sound now kept (e ∷ es) st h =
      let st' = expire x e (is_stale now e.modified) now st in
      elim (e.directory || is_stale now e.modified || leb max_inbox kept)
        as (λ b. Sound (elim b [
          | true ↦ clean x now kept es (record st' { world = x.remove e st'.world })
          | false ↦ clean x now (suc kept) es st
        ])) [
          | true ↦
              clean-Sound now kept es (record st' { world = x.remove e st'.world })
                (expire-Sound e (is_stale now e.modified) now st h)
          | false ↦ clean-Sound now (suc kept) es st h
        ]

  apply_waiting-Sound :
      (conf : AgentConf) (again : Option (List Entry)) (st : Box W)
      → Sound st
      → Sound (apply_waiting x conf again st)
  unfolding apply_waiting
  apply_waiting-Sound conf none st h = h
  apply_waiting-Sound conf (some entries) st h =
      elim conf.can_command
        as (λ b. Sound (
          if not b then st else elim conf.trusted_keys [
            | ok keys ↦ apply_each x keys conf.server_id (pending entries) st
            | err e ↦ complain x e st
          ])) [
            | true ↦
                elim conf.trusted_keys
                  as (λ keys. Sound (elim keys [
                    | ok keys ↦ apply_each x keys conf.server_id (pending entries) st
                    | err e ↦ complain x e st
                  ])) [
                    | ok keys ↦ apply_each-Sound keys conf.server_id (pending entries) st h
                    | err e ↦ complain-Sound e st h
                  ]
            | false ↦ h
          ]

  clean_and_apply-Sound :
      (conf : AgentConf) (entries : List Entry) (st : Box W)
      → Sound st
      → Sound (clean_and_apply x conf entries st)
  unfolding clean_and_apply
  clean_and_apply-Sound conf entries st h =
      let st' = tick x st in
      let sorted = sort_by (λ (a b : Entry). le_text a.name b.name) entries in
      let cleaned = clean x st'.now 0 sorted st' in
      let (again, w) = x.entries cleaned.world in
      apply_waiting-Sound conf again (record cleaned { world = w })
        (clean-Sound st'.now 0 sorted st' (tick-Sound st h))

  pub apply_pending-Sound :
      (conf : AgentConf) (st : Box W) → Sound st → Sound (apply_pending x conf st)
  unfolding apply_pending
  apply_pending-Sound conf st h =
      let (first, w) = x.entries st.world in
      let st' : Box W = record st { world = w } in
      elim first
        as (λ first. Sound (elim first [
          | none ↦ st'
          | some [] ↦ st'
          | some (e ∷ es) ↦ clean_and_apply x conf (take max_scan (e ∷ es)) st'
        ])) [
          | none ↦ h
          | some [] ↦ h
          | some (e ∷ es) ↦ clean_and_apply-Sound conf (take max_scan (e ∷ es)) st' h
        ]

  pub prune-Sound : (st : Box W) → Sound st → Sound (prune x st)
  unfolding prune
  prune-Sound st h =
      let st' = tick x st in
      prune-IsSound x.lossy st.performed st'.now st.results (tick-Sound st h) (x.removes st'.world)

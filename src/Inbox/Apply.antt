-- ===== src/Inbox/Apply.antt =====
-- Cleaning the inbox and applying what waits in it: `apply_pending_with_clock` and `apply_one` of
-- src/host/inbox.rs. The agent owns the inbox directory, so each reading of it may give anything.
use komizo.Prelude.{
  ℕ, suc, ◌+◌, ◌*◌, ◌^◌, Bool, true, false, not, ◌&&◌, ◌||◌, Option, none, some, List, [], ◌∷◌,
  ◌++◌, ltb, leb, ◌==◌, if◌then◌else◌, take, is_empty, Text, codes, starts_with,
}
use komizo.Prelude.Int.{pos}
use komizo.Prelude.Result.{Fault, said, Result, ok, err, named, is_ok}
use komizo.Prelude.Sort.{le_text, sort_by}
use komizo.Operation.Record.{Time, Write}
use komizo.Inbox.Command.{Codec, Command, Verified, verify_command, valid_command_id}
use komizo.Inbox.Results.{
  CommandResult, Directory, applied, write_result, claim_result, prune_results,
}

-- An entry of the inbox, with its time of modification if it can be read.
pub record Entry : Type 0 where
  pub name : Text
  pub modified : Option Time
  pub directory : Bool

-- The machine below: `elapsed` is the time since the clock was last read, `entries` a reading of the
-- directory, `raw` of one of its files, `device` names a signer's device and `lossy` is
-- `from_utf8_lossy`.
pub record Effects (W : Type 0) : Type 0 where
  pub codec : Codec
  pub elapsed : W → ℕ × W
  pub entries : W → Option (List Entry) × W
  pub remove : Entry → W → W
  pub raw : Text → W → Result (Option (List ℕ)) × W
  pub disk : W → Write × W
  pub perform : Command → Text → W → Result (Unit {0}) × W
  pub removes : W → Text → Bool
  pub device : List ℕ → Text
  pub render : Fault → Text
  pub lossy : List ℕ → Text

-- `performed` lists the commands handed to the executor, the last one first.
pub record Box (W : Type 0) : Type 0 where
  pub results : Directory
  pub performed : List Command
  pub now : Time
  pub errors : List Fault
  pub world : W

-- `AgentConf`: whether the box takes commands, the keys it trusts, and its identity.
pub record AgentConf : Type 0 where
  pub can_command : Bool
  pub trusted_keys : Result (List (List ℕ))
  pub server_id : Text

abbrev pub max_scan : ℕ
max_scan = 4096

abbrev pub max_inbox : ℕ
max_inbox = 256

abbrev max_pending : ℕ
max_pending = 32

unfoldable pub actor : (device : List ℕ → Text) → Command → (signer : List ℕ) → Text
actor device c signer =
    if is_empty c.sub then codes "device " ++ device signer else codes "account " ++ c.sub

-- The result of a command, before it is written.
unfoldable pub result_for : (id op : Text) → Time → Bool → Text → CommandResult
result_for id op at done detail = record {
  v = pos 0;
  id = id;
  op = op;
  at = at;
  done = done;
  detail = detail;
}

unfoldable pub detail_of : (Fault → Text) → Result (Unit {0}) → Text
detail_of render (ok t) = []
detail_of render (err e) = render e

abbrev pub Waiting : Type 0
Waiting = Time × Text

unfoldable pub before : Waiting → Waiting → Bool
unfolding le_text
before (m, name) (m', name') = ltb m m' || m == m' && le_text name name'

-- The `filter_map` of the second reading.
unfoldable pub waiting : List Entry → List Waiting
unfolding starts_with
waiting [] = []
waiting (e ∷ es) = elim e.modified [
  | none ↦ waiting es
  | some m ↦
      if starts_with (codes ".") e.name || e.directory then waiting es else (m, e.name) ∷ waiting es
]

-- The commands that are tried, the oldest first.
unfoldable pub pending : List Entry → List Waiting
unfolding waiting sort_by before
pending entries = take max_pending (sort_by before (waiting (take max_scan entries)))

unfoldable pub is_stale : Time → Option Time → Bool
is_stale now none = true
is_stale now (some m) = ltb (m + 6 * 60 * 10 ^ 9) now

module _ {W : Type 0} (x : Effects W) where
  -- A reading of the clock.
  unfoldable pub tick : Box W → Box W
  tick st = let (d, w) = x.elapsed st.world in record st { now = st.now + d; world = w }

  unfoldable pub complain : Fault → Box W → Box W
  complain e st = record st { errors = st.errors ++ e ∷ [] }

  unfoldable pub write : CommandResult → Box W → Result (Unit {0}) × Box W
  unfolding write_result
  write result st =
      let (disk, w) = x.disk st.world in
      let (r, directory) = write_result x.lossy disk result st.now st.results in
      (r, record st { results = directory; world = w })

  unfoldable pub claim : CommandResult → Box W → Result Bool × Box W
  unfolding claim_result
  claim result st =
      let (disk, w) = x.disk st.world in
      let (r, directory) = claim_result x.lossy disk result st.now st.results in
      (r, record st { results = directory; world = w })

  -- `executor.perform`
  unfoldable pub execute : Command → (actor : Text) → Box W → Result (Unit {0}) × Box W
  execute c actor st =
      let (r, w) = x.perform c actor st.world in
      (r, record st { performed = c ∷ st.performed; world = w })

  unfoldable pub record_outcome : Command → Result (Unit {0}) × Box W → Box W
  unfolding tick write complain result_for detail_of
  record_outcome c (r, st) =
      let st' = tick st in
      let (written, st'') =
        write (result_for c.id c.op st'.now (is_ok r) (detail_of x.render r)) st' in
      elim written [
        | ok t ↦ st''
        | err e ↦ complain (named (codes "could not record the result of " ++ c.id) e) st''
      ]

  -- The match on the claim.
  unfoldable pub on_claim : Verified → Result Bool × Box W → Box W
  unfolding execute record_outcome complain actor
  on_claim v (ok true, st) =
      record_outcome v.command (execute v.command (actor x.device v.command v.signer) st)
  on_claim v (ok false, st) = st
  on_claim v (err e, st) =
      complain
        (named (codes "could not claim " ++ v.command.id ++ codes ", so it was not applied") e) st

  -- `APPLYING_DETAIL` marks a claim.
  unfoldable pub claim_and_perform : Verified → Box W → Box W
  unfolding tick claim on_claim result_for
  claim_and_perform v st =
      let st' = tick st in
      on_claim v (claim (result_for v.command.id v.command.op st'.now false (codes "applying")) st')

  -- A command that this box does not support.
  unfoldable pub reject : Command → Text → Box W → Box W
  unfolding tick write complain result_for
  reject c text st =
      let st' = complain (named (codes "refusing a command") (said text)) st in
      if is_empty c.id
      then st'
      else (let st'' = tick st' in (write (result_for c.id c.op st''.now false text) st'').1)

  unfoldable pub on_verified : Result Verified → Box W → Box W
  unfolding reject claim_and_perform complain applied
  on_verified (err e) st = complain (named (codes "refusing a command") e) st
  on_verified (ok v) st = elim v.unsupported [
    | some text ↦ reject v.command text st
    | none ↦ if applied st.results v.command.id then st else claim_and_perform v st
  ]

  unfoldable pub on_raw :
      (keys : List (List ℕ)) → (server : Text) → Result (Option (List ℕ)) → Box W → Box W
  unfolding tick on_verified verify_command
  on_raw keys server (ok (some raw)) st =
      let st' = tick st in on_verified (verify_command x.codec keys raw server st'.now) st'
  on_raw keys server _ st = st

  -- `apply_one`: the file is read, removed, and applied.
  unfoldable pub apply_one : (keys : List (List ℕ)) → (server : Text) → Waiting → Box W → Box W
  unfolding on_raw
  apply_one keys server (modified, name) st =
      let (raw, w) = x.raw name st.world in
      let file : Entry = record { name = name; modified = some modified; directory = false } in
      on_raw keys server raw (record st { world = x.remove file w })

  unfoldable pub apply_each :
      (keys : List (List ℕ)) → (server : Text) → List Waiting → Box W → Box W
  unfolding apply_one
  apply_each keys server [] st = st
  apply_each keys server (p ∷ ps) st = apply_each keys server ps (apply_one keys server p st)

  -- A file that expired, or is one too many, gets a result that says so.
  unfoldable pub expire : Entry → Bool → Time → Box W → Box W
  unfolding write result_for applied valid_command_id
  expire e stale now st =
      if not e.directory && valid_command_id e.name && not (applied st.results e.name)
      then (write
          (result_for e.name [] now false (
            if stale
            then codes "this box did not get to this command before it expired"
            else codes "this box had too many commands waiting"))
          st).1
      else st

  -- The first loop, with the number of entries kept.
  unfoldable pub clean : (now : Time) → (kept : ℕ) → List Entry → Box W → Box W
  unfolding expire is_stale
  clean now kept [] st = st
  clean now kept (e ∷ es) st = elim (e.directory || is_stale now e.modified || leb max_inbox kept) [
    | true ↦
        let st' = expire e (is_stale now e.modified) now st in
        clean now kept es (record st' { world = x.remove e st'.world })
    | false ↦ clean now (suc kept) es st
  ]

  -- From the second reading on.
  unfoldable pub apply_waiting : AgentConf → Option (List Entry) → Box W → Box W
  unfolding pending apply_each complain
  apply_waiting conf none st = st
  apply_waiting conf (some entries) st =
      if not conf.can_command then st else elim conf.trusted_keys [
        | ok keys ↦ apply_each keys conf.server_id (pending entries) st
        | err e ↦ complain e st
      ]

  -- The first reading is not empty.
  unfoldable pub clean_and_apply : AgentConf → List Entry → Box W → Box W
  unfolding tick clean apply_waiting sort_by
  clean_and_apply conf entries st =
      let st' = tick st in
      let cleaned = clean st'.now 0 (sort_by (λ a b. le_text a.name b.name) entries) st' in
      let (again, w) = x.entries cleaned.world in
      apply_waiting conf again (record cleaned { world = w })

  unfoldable pub apply_pending : AgentConf → Box W → Box W
  unfolding clean_and_apply
  apply_pending conf st =
      let (first, w) = x.entries st.world in
      let st' = record st { world = w } in
      elim first [
        | none ↦ st'
        | some [] ↦ st'
        | some (e ∷ es) ↦ clean_and_apply conf (take max_scan (e ∷ es)) st'
      ]

  -- `prune_results`, as the daemon calls it at a time of the clock.
  unfoldable pub prune : Box W → Box W
  unfolding tick prune_results
  prune st =
      let st' = tick st in
      record st' { results = prune_results (x.removes st'.world) st'.now st'.results }

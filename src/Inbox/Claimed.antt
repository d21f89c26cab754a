-- ===== src/Inbox/Claimed.antt =====
-- A claim in the results directory: `claim_result` and `prune_results` of src/host/results.rs, and the
-- window that `verify_command` of src/host/authority/commands.rs holds a command to.
use komizo.Prelude.{
  ℕ, ◌+◌, ◌*◌, ◌^◌, ◌≤◌, ◌<◌, ◌≡◌, refl, ap, ◌∙◌, ◌⊎◌, inl, inr, Bool, true, false, ◌&&◌, Option,
  none, some, List, ◌∷◌, arith, ltb, if◌then◌else◌, ltb→lt, Bool-cases, and-eq-true, All, Text,
  text_eq_refl,
}
use komizo.Prelude.Int.{ℤ, pos, ◌+ℤ◌, ◌≤ℤ◌, lt_ℤ, +ℤ_parts}
use komizo.Prelude.Result.{Result, ok, err}
use mathlib.Core.Path.{subst}
use komizo.Operation.Record.{Time, Write, refused, unsynced, written}
use komizo.Inbox.Command.{Command, expiry_of, in_window, valid_command_id}
use komizo.Inbox.Results.{
  CommandResult, Stored, Directory, put, is_some, prepared, bad_id, stored_claim, claim_result,
  retained_for, prune_results,
}
use komizo.Inbox.Sound.{
  expiry, Expired, Held, Past, Differs, IsSound, All-map, put-IsSound, put_here,
}

-- What is claimed: the directory keeps its invariant, and a claim that succeeds was the first one.
abbrev pub Claims : (id : Text) → List Command → Time → Directory → Result Bool × Directory → Type 0
Claims id performed now results (r, directory) =
    IsSound directory performed now
    × (r ≡ ok true
        → (results id ≡ none)
          × (result : CommandResult) × (directory
              ≡ put id (record { result = result; modified = now }) results))

-- A result that is pruned is older than any window it holds.
pruned_over :
    (m now : Time) (b : Bool) (x : ℤ)
    → (ltb (m + retained_for) now && b) ≡ true
    → x ≤ℤ pos (m + 330 * 10 ^ 9)
    → lt_ℤ (x +ℤ pos (30 * 10 ^ 9)) (pos now) ≡ true
pruned_over m now b x g k =
    let (older, kept) = and-eq-true (ltb (m + retained_for) now) b g in
    over (ltb→lt (m + retained_for) now older)
  where
    over : m + retained_for < now → lt_ℤ (x +ℤ pos (30 * 10 ^ 9)) (pos now) ≡ true
    over l = ground (arith, +ℤ_parts x (pos (30 * 10 ^ 9)))

out_of_window :
    (now : Time) (x : ℤ)
    → in_window now x ≡ true
    → lt_ℤ (x +ℤ pos (30 * 10 ^ 9)) (pos now) ≡ true
    → ⊥
unfolding in_window
out_of_window now x w o = ground arith

module _ (lossy : List ℕ → Text) (performed : List Command) (now : Time) (results : Directory)
    (h : IsSound results performed now) where
  stored_claim-Claims :
      (disk : Write) (result : CommandResult)
      → Claims result.id performed now results (stored_claim disk result now results)
  unfolding stored_claim
  stored_claim-Claims (refused f) result = (h, λ e. cc)
  stored_claim-Claims (unsynced f) result =
      elim (is_some (results result.id))
        as (λ b. Claims result.id performed now results (
          if b
          then (ok false, results)
          else (err f, put result.id (record { result = result; modified = now }) results))) [
            | true ↦ (h, λ e. cc)
            | false ↦ (put-IsSound result.id result results now performed h, λ e. cc)
          ]
  stored_claim-Claims written result =
      elim (results result.id)
          as (λ o.
            results result.id ≡ o
            → Claims result.id performed now results (
                if is_some o then (ok false, results) else (
                  ok true,
                  put result.id (record { result = result; modified = now }) results,
                ))) [
                  | some s ↦ λ found. (h, λ e. cc)
                  | none ↦ λ found. (
                    put-IsSound result.id result results now performed h,
                    λ e. (found, result, refl),
                  )
                ]
        refl

  pub claim_result-Claims :
      (disk : Write) (result : CommandResult)
      → Claims result.id performed now results (claim_result lossy disk result now results)
  unfolding claim_result prepared
  claim_result-Claims disk result =
      elim (valid_command_id result.id)
        as (λ b. Claims result.id performed now results (
          if b
          then stored_claim disk (prepared lossy result) now results
          else (err bad_id, results))) [
            | true ↦ stored_claim-Claims disk (prepared lossy result)
            | false ↦ (h, λ e. cc)
          ]

  prune-Held :
      (removes : Text → Bool) (c : Command)
      → Held results c
      → Held (prune_results removes now results) c ⊎ Expired now c
  unfolding prune_results
  prune-Held removes c (s, e, k) =
      elim (Bool-cases (ltb (s.modified + retained_for) now && removes c.id)) [
        | inl gone ↦ inr (pruned_over s.modified now (removes c.id) (expiry c) gone k)
        | inr kept ↦ inl (
          s,
          ap
                (λ o. elim o [
                  | none ↦ none
                  | some stored ↦
                      if ltb (stored.modified + retained_for) now && removes c.id
                      then none
                      else some stored
                ])
                e
              ∙ ap (λ b. if b then none else some s) kept,
          k,
        )
      ]

  prune-Past : (removes : Text → Bool) → Past (prune_results removes now results) now
  unfolding prune_results
  prune-Past removes id s e = go (results id) refl e
    where
      go :
          (o : Option Stored)
          → results id ≡ o
          → elim o [
            | none ↦ none
            | some stored ↦
                if ltb (stored.modified + retained_for) now && removes id then none else some stored
          ]
            ≡ some s
          → s.modified ≤ now
      go none k f = absurd (cc)
      go (some stored) k f = ground (arith, h.past id stored k)

  -- Pruning keeps it too: what is pruned is over.
  pub prune-IsSound :
      (removes : Text → Bool) → IsSound (prune_results removes now results) performed now
  prune-IsSound removes = record {
    past = prune-Past removes;
    covered =
        All-map (λ c k. elim k [ inl held ↦ prune-Held removes c held | inr over ↦ inr over ])
          performed h.covered;
    distinct = h.distinct;
  }

-- A command that may be claimed now was not performed before.
pub claimed-Differs :
    (results : Directory) (performed : List Command) (now : Time) (c : Command)
    → IsSound results performed now
    → in_window now (expiry c) ≡ true
    → results c.id ≡ none
    → All (Differs c) performed
claimed-Differs results performed now c h w n = All-map differs performed h.covered
  where
    differs : (d : Command) → Held results d ⊎ Expired now d → Differs c d
    differs d (inl (s, e, k)) same exp = absurd (cc (ap results same, n, e))
    differs d (inr over) same exp =
        out_of_window now (expiry d) (subst (λ x. in_window now x ≡ true) (ap expiry_of exp) w) over

-- The command that was claimed and is performed joins the others.
pub perform-IsSound :
    (results : Directory) (performed : List Command) (now : Time) (c : Command)
    → IsSound results performed now
    → Held results c
    → All (Differs c) performed
    → IsSound results (c ∷ performed) now
perform-IsSound results performed now c h held differs = record {
  past = h.past;
  covered = (inl held, h.covered);
  distinct = (differs, h.distinct);
}

window_end : (now : Time) (x : ℤ) → in_window now x ≡ true → x ≤ℤ pos (now + 330 * 10 ^ 9)
unfolding in_window
window_end now x h = ground arith

-- The result that a claim writes holds the command.
pub claimed-Held :
    (results : Directory) (result : CommandResult) (now later : Time) (c : Command)
    → in_window now (expiry c) ≡ true
    → now ≤ later
    → Held (put c.id (record { result = result; modified = later }) results) c
claimed-Held results result now later c w le = (
  record { result = result; modified = later },
  put_here c.id result results later c.id (text_eq_refl c.id),
  extend (expiry c) now later (window_end now (expiry c) w) le,
)
  where
    extend :
        (x : ℤ) (now later : Time)
        → x ≤ℤ pos (now + 330 * 10 ^ 9)
        → now ≤ later
        → x ≤ℤ pos (later + 330 * 10 ^ 9)
    extend x now later h le = omega arith

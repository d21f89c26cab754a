-- ===== src/Inbox/Sound.antt =====
-- What holds of the commands that were performed, whatever the inbox gave: the invariant that
-- `apply_pending_with_clock` of src/host/inbox.rs and `prune_results` of src/host/results.rs keep.
use komizo.Prelude.{
  ℕ, ◌+◌, ◌*◌, ◌^◌, ◌≤◌, ◌≡◌, refl, sym, ◌∙◌, ◌⊎◌, inl, inr, true, false, some, List, [], ◌∷◌,
  arith, if◌then◌else◌, Bool-cases, All, Text, text_eq,
}
use komizo.Prelude.Int.{ℤ, pos, ◌+ℤ◌, ◌≤ℤ◌, lt_ℤ}
use komizo.Prelude.Result.{err}
use mathlib.Core.Path.{subst}
use mathlib.Core.Option.{some-injective}
use native.Mathlib.Nat.{le_refl}
use komizo.Operation.Record.{Time, Write, refused, unsynced, written}
use komizo.Inbox.Command.{Command, expiry_of, valid_command_id}
use komizo.Inbox.Results.{
  CommandResult, Stored, Directory, put, prepared, bad_id, stored_write, write_result,
}

abbrev pub expiry : Command → ℤ
expiry c = expiry_of c.exp

-- The window of the command is over.
abbrev pub Expired : Time → Command → Type 0
Expired now c = lt_ℤ (expiry c +ℤ pos (30 * 10 ^ 9)) (pos now) ≡ true

-- The directory holds a result of the command's id, and its file is not older than the command's
-- window allows.
abbrev pub Held : Directory → Command → Type 0
Held results c =
    (s : Stored) × (results c.id ≡ some s) × (expiry c ≤ℤ pos (s.modified + 330 * 10 ^ 9))

-- No result is younger than the clock.
abbrev pub Past : Directory → Time → Type 0
Past results now = (id : Text) (s : Stored) → results id ≡ some s → s.modified ≤ now

-- Two commands that are not the same signed one.
abbrev pub Differs : Command → Command → Type 0
Differs c d = c.id ≡ d.id → c.exp ≡ d.exp → ⊥

abbrev pub Distinct : List Command → Type 0
Distinct [] = Unit {0}
Distinct (c ∷ cs) = All (Differs c) cs × Distinct cs

pub record IsSound (results : Directory) (performed : List Command) (now : Time) : Type 0 where
  pub past : Past results now
  pub covered : All (λ c. Held results c ⊎ Expired now c) performed
  pub distinct : Distinct performed

pub All-map {ℓ κ} :
    {A : Type ℓ} {P Q : A → Type κ} → ((a : A) → P a → Q a) → (xs : List A) → All P xs → All Q xs
All-map f [] h = tt
All-map f (x ∷ xs) h = (f x h.0, All-map f xs h.1)

Expired-later : (c : Command) (now d : Time) → Expired now c → Expired (now + d) c
Expired-later c now d h = ground arith

-- Time passes.
pub IsSound-tick :
    (results : Directory) (performed : List Command) (now d : Time)
    → IsSound results performed now
    → IsSound results performed (now + d)
IsSound-tick results performed now d h = record {
  past = λ id s e. omega (arith, h.past id s e);
  covered =
      All-map (λ c k. elim k [ inl held ↦ inl held | inr over ↦ inr (Expired-later c now d over) ])
        performed h.covered;
  distinct = h.distinct;
}

-- A file that is written now.
module _ (id : Text) (result : CommandResult) (results : Directory) (now : Time) where
  abbrev fresh : Stored
  fresh = record { result = result; modified = now }

  pub put_here : (name : Text) → text_eq name id ≡ true → put id fresh results name ≡ some fresh
  unfolding put
  put_here name e = rw e refl

  put_other : (name : Text) → text_eq name id ≡ false → put id fresh results name ≡ results name
  unfolding put
  put_other name e = rw e refl

  put-Past : Past results now → Past (put id fresh results) now
  put-Past past name s e = elim (Bool-cases (text_eq name id)) [
    | inl k ↦
        let same = some-injective fresh s (sym (put_here name k) ∙ e) in
        subst (λ x. x.modified ≤ now) same (le_refl now)
    | inr k ↦ past name s (sym (put_other name k) ∙ e)
  ]

  put-Held : (c : Command) → Past results now → Held results c → Held (put id fresh results) c
  put-Held c past (s, e, k) = elim (Bool-cases (text_eq c.id id)) [
    | inl same ↦ (fresh, put_here c.id same, later c s (past c.id s e) k)
    | inr other ↦ (s, put_other c.id other ∙ e, k)
  ]
    where
      later :
          (c : Command) (s : Stored)
          → s.modified ≤ now
          → expiry c ≤ℤ pos (s.modified + 330 * 10 ^ 9)
          → expiry c ≤ℤ pos (now + 330 * 10 ^ 9)
      later c s m k = omega arith

  pub put-IsSound :
      (performed : List Command)
      → IsSound results performed now
      → IsSound (put id fresh results) performed now
  put-IsSound performed h = record {
    past = put-Past h.past;
    covered =
        All-map (λ c k. elim k [ inl held ↦ inl (put-Held c h.past held) | inr over ↦ inr over ])
          performed h.covered;
    distinct = h.distinct;
  }

module _ (lossy : List ℕ → Text) (performed : List Command) (now : Time) (results : Directory)
    (h : IsSound results performed now) where
  stored_write-IsSound :
      (disk : Write) (result : CommandResult)
      → IsSound (stored_write disk result now results).1 performed now
  unfolding stored_write
  stored_write-IsSound (refused f) result = h
  stored_write-IsSound (unsynced f) result = put-IsSound result.id result results now performed h
  stored_write-IsSound written result = put-IsSound result.id result results now performed h

  -- `write_result` keeps it.
  pub write_result-IsSound :
      (disk : Write) (result : CommandResult)
      → IsSound (write_result lossy disk result now results).1 performed now
  unfolding write_result
  write_result-IsSound disk result =
      elim (valid_command_id result.id)
        as (λ b.
          IsSound
            (if b
              then stored_write disk (prepared lossy result) now results
              else (err bad_id, results)).1
            performed now) [ true ↦ stored_write-IsSound disk (prepared lossy result) | false ↦ h ]

-- ===== src/Operation/History.antt =====
-- Histories of the operation file: any number of calls of `record`, with any arguments, at any time,
-- each of which may fail before or after its rename.
use komizo.Prelude.{
  ℕ, ◌+◌, ◌≡◌, refl, sym, ap, ◌∙◌, ◌⊎◌, inl, inr, true, false, List, [], ◌∷◌, arith, length,
  Bool-cases, all, is_empty, ◌||◌, ltb,
}
use komizo.Prelude.Int.{pos}
use komizo.Prelude.Result.{ok}
use komizo.Identity.{identifier, revision, operation_identity, is_hex}
use komizo.Operation.Phase.{Phase, admitted, same, in_contract, activation_failed}
use komizo.Operation.Record.{
  Operation, Journal, absent, unreadable, malformed, holds, Machine, Entry, valid_entry, fresh,
  effective, succeed, against, hex, plan, record_phase, fenced, operation_minutes,
}
use komizo.Operation.Advance.{
  plan-parts, plan-holds, record_phase-atomic, admit-fresh, admit-other, succeed-phase,
  succeed-Continues,
}

-- One call, and what it leaves in the file.
pub data Step (j k : Journal) : Type 0 where
  call : (m : Machine) (e : Entry) → (record_phase m e j).1 ≡ k → Step j k

pub data History (j : Journal) : Journal → Type 0 where
  start : History j j
  next : {k l : Journal} → History j k → Step k l → History j l

-- What identifies a deployment, and its limits, which are drawn once.
pub record SameDeployment (old op : Operation) : Type 0 where
  pub id : op.id ≡ old.id
  pub started_at : op.started_at ≡ old.started_at
  pub deadline : op.deadline ≡ old.deadline
  pub app : op.app ≡ old.app
  pub candidate : op.candidate ≡ old.candidate
  pub previous : op.previous ≡ old.previous

pub SameDeployment-refl : (a : Operation) → SameDeployment a a
SameDeployment-refl a = ground arith

pub SameDeployment-trans :
    (a b c : Operation) → SameDeployment a b → SameDeployment b c → SameDeployment a c
SameDeployment-trans a b c h k = ground arith

-- The file holds the given deployment.
abbrev pub Holds : Operation → Journal → Type 0
Holds old absent = ⊥
Holds old (unreadable f) = ⊥
Holds old malformed = ⊥
Holds old (holds op) = SameDeployment old op

abbrev pub IsFenced : Journal → Type 0
IsFenced (holds op) = fenced op.phase ≡ true
IsFenced _ = ⊥

-- A history in which each call finds an interrupted operation.
pub data FencedHistory (j : Journal) : Journal → Type 0 where
  start : FencedHistory j j
  next : {k l : Journal} → FencedHistory j k → IsFenced k → Step k l → FencedHistory j l

fenced-plan :
    (m : Machine) (e : Entry) (old op : Operation)
    → plan m e (holds old) ≡ ok op
    → fenced old.phase ≡ true
    → SameDeployment old op
fenced-plan m e old op p f = elim (plan-holds m e old op p) [
  | inl c ↦ ground arith
  | inr a ↦ absurd (ground arith)
]

fenced-Step :
    (old : Operation) (k : Journal) {l : Journal}
    → Holds old k
    → IsFenced k
    → Step k l
    → Holds old l
fenced-Step old absent h f s = elim h [ ]
fenced-Step old (unreadable x) h f s = elim h [ ]
fenced-Step old malformed h f s = elim h [ ]
fenced-Step old (holds now) h f (call m e r) = elim (record_phase-atomic m e (holds now)) [
  | inl kept ↦ rw (sym r ∙ kept) h
  | inr (op, p, q) ↦ rw (sym r ∙ q) (SameDeployment-trans old now op h (fenced-plan m e now op p f))
]

-- While each call finds an interrupted phase, the file keeps the deployment that it held: its identity,
-- its revisions and its deadline. No other version is admitted in between.
pub fence_holds : (old : Operation) {k : Journal} → FencedHistory (holds old) k → Holds old k
fence_holds old start = SameDeployment-refl old
fence_holds old (next {k = k} h f s) = fenced-Step old k (fence_holds old h) f s

-- What every record on disk satisfies: the formats of its identities, a phase of the contract, and a
-- deadline 25 minutes after its start.
pub record IsValid (op : Operation) : Type 0 where
  pub version : op.version ≡ pos 1
  pub app : identifier op.app ≡ true
  pub candidate : revision op.candidate ≡ true
  pub previous : (is_empty op.previous || revision op.previous) ≡ true
  pub phase : in_contract op.phase ≡ true
  pub id : operation_identity op.id ≡ true
  pub deadline : op.deadline ≡ op.started_at + operation_minutes

abbrev pub JournalIsValid : Journal → Type 0
JournalIsValid (holds op) = IsValid op
JournalIsValid _ = Unit {0}

-- `getrandom::fill` over an array of sixteen bytes.
abbrev pub SixteenBytes : Machine → Type 0
SixteenBytes m =
    (bytes : List ℕ)
    → m.entropy ≡ ok bytes
    → (length bytes ≡ 16) × (all (λ b. ltb b 256) bytes ≡ true)

hex-is_hex : (bs : List ℕ) → all (λ b. ltb b 256) bs ≡ true → all is_hex (hex bs) ≡ true
unfolding hex
hex-is_hex [] h = refl
hex-is_hex (b ∷ bs) h = ground (arith, hex-is_hex bs)

length-hex : (bs : List ℕ) → length (hex bs) ≡ length bs + length bs
unfolding hex
length-hex [] = omega arith
length-hex (b ∷ bs) = omega (arith, length-hex bs)

-- The identity of a deployment has the format that every later request is checked against.
pub hex-operation_identity :
    (bs : List ℕ)
    → length bs ≡ 16
    → all (λ b. ltb b 256) bs ≡ true
    → operation_identity (hex bs) ≡ true
unfolding operation_identity
hex-operation_identity bs l h = ground (arith, hex-is_hex bs, length-hex bs)

-- The fields that a plan takes from its entry, on every branch.
record Plain (e : Entry) (base : Operation) : Type 0 where
  version : base.version ≡ pos 1
  app : base.app ≡ e.app
  candidate : base.candidate ≡ e.candidate
  previous : base.previous ≡ e.previous
  phase : (base.phase ≡ e.phase) ⊎ (base.phase ≡ activation_failed)

effective-cases :
    (e : Entry) (old : Operation)
    → (effective e old ≡ e.phase) ⊎ (effective e old ≡ activation_failed)
unfolding effective
effective-cases e old = ground arith

succeed-fields :
    (e : Entry) (old base : Operation)
    → succeed e old ≡ ok base
    → (base.version ≡ pos 1)
      × (base.app ≡ e.app)
      × (base.candidate ≡ e.candidate)
      × (base.previous ≡ e.previous)
unfolding succeed fresh
succeed-fields e old base h = ground arith

against-Plain : (e : Entry) (j : Journal) (base : Operation) → against e j ≡ ok base → Plain e base
unfolding against
against-Plain e absent base h = unfold fresh in ground arith
against-Plain e (unreadable f) base h = cc
against-Plain e malformed base h = cc
against-Plain e (holds old) base h =
    ground (arith, succeed-fields e old base h, succeed-phase e old base h, effective-cases e old)

-- Outside an admission the plan keeps what an earlier record fixed.
against-kept :
    (e : Entry) (j : Journal) (base : Operation)
    → JournalIsValid j
    → against e j ≡ ok base
    → same base.phase admitted ≡ false
    → (operation_identity base.id ≡ true) × (base.deadline ≡ base.started_at + operation_minutes)
unfolding against
against-kept e absent base v h n = unfold fresh in ground arith
against-kept e (unreadable f) base v h n = cc
against-kept e malformed base v h n = cc
against-kept e (holds old) base v h n =
    let unmoved = ap (λ (x : Phase). same x admitted) (sym (succeed-phase e old base h)) ∙ n in
    let c = succeed-Continues e old base h unmoved in ground arith

Plain-contract :
    (e : Entry) (base : Operation)
    → Plain e base
    → in_contract e.phase ≡ true
    → in_contract base.phase ≡ true
unfolding in_contract
Plain-contract e base b c = ground arith

-- Every operation that `record` plans is valid.
pub plan-IsValid :
    (m : Machine) (e : Entry) (j : Journal) (op : Operation)
    → SixteenBytes m
    → JournalIsValid j
    → plan m e j ≡ ok op
    → IsValid op
plan-IsValid m e j op bytes16 v h =
    let (base, p, q, formats, contract) = plan-parts m e j op h in
    let plain = against-Plain e j base p in
    let known = Plain-contract e base plain contract in
    elim (Bool-cases (same base.phase admitted)) [
      | inl y ↦
          (let (bytes, drawn, filled) = admit-fresh m e base op q y in
            let (long, small) = bytes16 bytes drawn in
            ground (arith, hex-operation_identity bytes long small))
      | inr n ↦ ground (arith, admit-other m e base op q n, against-kept e j base v p n)
    ]

-- The machines of a history that draw sixteen random bytes.
pub data DrawnHistory (j : Journal) : Journal → Type 0 where
  start : DrawnHistory j j
  next :
      {k l : Journal}
      → DrawnHistory j k
      → (m : Machine) (e : Entry) → SixteenBytes m
      → (record_phase m e k).1 ≡ l
      → DrawnHistory j l

-- Whatever calls of `record` were made since the file was absent, with whatever arguments, and whether
-- their writes failed before or after the rename: an operation that the file holds is valid.
pub history-IsValid : {k : Journal} → DrawnHistory absent k → JournalIsValid k
history-IsValid start = tt
history-IsValid (next {k = k} h m e bytes r) = elim (record_phase-atomic m e k) [
  | inl kept ↦ rw (sym r ∙ kept) (history-IsValid h)
  | inr (op, p, q) ↦ rw (sym r ∙ q) (plan-IsValid m e k op bytes (history-IsValid h) p)
]

-- The call is refused, and changes nothing, when its arguments are malformed, its phase is not one of the
-- contract, or the file does not start with an admission.
pub refused_entry :
    (m : Machine) (e : Entry) (j : Journal)
    → (valid_entry e ≡ false)
      ⊎ ((in_contract e.phase ≡ false) ⊎ ((j ≡ absent) × (same e.phase admitted ≡ false)))
    → (record_phase m e j).1 ≡ j
unfolding record_phase plan
refused_entry m e j (inl h) = rw h refl
refused_entry m e j (inr (inl h)) = ground arith
refused_entry m e j (inr (inr (a, h))) = rw a (unfold against in ground arith)

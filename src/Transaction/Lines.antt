-- ===== src/Transaction/Lines.antt =====
-- Texts that end with a newline, as `deployment_env` of src/host/workload/transaction.rs writes them:
-- their lines, and the lines without the last newline.
use komizo.Prelude.{
  ℕ, ◌≡◌, refl, sym, ap, ◌∙◌, ◌⊎◌, inl, inr, Bool, true, false, ◌||◌, List, [], ◌∷◌, ◌++◌, arith,
  ◌==◌, if◌then◌else◌, is_empty, all, All, Text, split, join, has_byte, cons_first, split_cons,
}
use mathlib.Core.List.{append_assoc}
use komizo.Prelude.Split.{split-join}
use komizo.Identity.{commit_id, is_hex}
use komizo.Transaction.Environment.{newline, strip_newline}

-- A line holds no newline.
abbrev pub IsLine : Text → Type 0
IsLine line = has_byte newline line ≡ false

pub join-snoc :
    (b : ℕ) (l : Text) (ls : List Text) → join b (l ∷ ls ++ [] ∷ []) ≡ join b (l ∷ ls) ++ b ∷ []
unfolding join
join-snoc b l [] = refl
join-snoc b l (m ∷ ls) =
    ap (λ t. l ++ b ∷ t) (join-snoc b m ls) ∙ sym (append_assoc l (b ∷ join b (m ∷ ls)) (b ∷ []))

pub All-snoc {ℓ κ} :
    {A : Type ℓ} (P : A → Type κ) (xs : List A) (x : A) → All P xs → P x → All P (xs ++ x ∷ [])
All-snoc P [] x h k = (k, tt)
All-snoc P (y ∷ xs) x h k = (h.0, All-snoc P xs x h.1 k)

-- The lines of a text that was joined and ended with a newline.
pub split-ended :
    (l : Text) (ls : List Text)
    → All IsLine (l ∷ ls)
    → split newline (join newline (l ∷ ls) ++ newline ∷ []) ≡ l ∷ ls ++ [] ∷ []
split-ended l ls h =
    ap (split newline) (sym (join-snoc newline l ls))
    ∙ split-join newline l (ls ++ [] ∷ []) (All-snoc IsLine (l ∷ ls) [] h (unfold has_byte in refl))

pub has_byte-append :
    (b : ℕ) (s t : Text) → has_byte b s ≡ false → has_byte b t ≡ false → has_byte b (s ++ t) ≡ false
unfolding has_byte
has_byte-append b [] t h k = k
has_byte-append b (c ∷ s) t h k = ground (arith, has_byte-append b s t)

hex-IsLine : (s : Text) → all is_hex s ≡ true → IsLine s
unfolding has_byte
hex-IsLine [] h = refl
hex-IsLine (c ∷ s) h = ground (arith, hex-IsLine s)

pub version-IsLine : (v : Text) → (is_empty v || commit_id v) ≡ true → IsLine v
unfolding commit_id has_byte
version-IsLine [] h = refl
version-IsLine (c ∷ s) h = hex-IsLine (c ∷ s) (ground arith)

abbrev Ended : List Text → List Text → Type 0
Ended whole front = (whole ≡ front) ⊎ (whole ≡ front ++ [] ∷ [])

Ended-step :
    (c : ℕ) (whole front : List Text) (t : Bool)
    → (l : Text) × (ls : List Text) × (front ≡ l ∷ ls)
    → Ended whole front
    → Ended
        (if t then [] ∷ whole else cons_first c whole)
        (if t then [] ∷ front else cons_first c front)
unfolding cons_first
Ended-step c whole front true s (inl e) = inl (ap (◌∷◌ []) e)
Ended-step c whole front true s (inr e) = inr (ap (◌∷◌ []) e)
Ended-step c whole front false s (inl e) = inl (ap (cons_first c) e)
Ended-step c whole front false (l, ls, k) (inr e) = inr (ground (arith, e, k))

-- The lines of a text are those of the text without a last newline, with an empty one or not.
pub split-strip_newline : (s : Text) → Ended (split newline s) (split newline (strip_newline s))
unfolding strip_newline split cons_first
split-strip_newline [] = inl refl
split-strip_newline (c ∷ []) = ground arith
split-strip_newline (c ∷ d ∷ s) =
    Ended-step c (split newline (d ∷ s)) (split newline (strip_newline (d ∷ s))) (c == newline)
      (split_cons newline (strip_newline (d ∷ s))) (split-strip_newline (d ∷ s))

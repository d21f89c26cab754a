-- ===== src/Preview/Label.antt =====
-- The labels of a host that `validate_hosts` of src/host/preview/knob.rs accepts.
use komizo.Prelude.{
  ℕ, ◌≤◌, ◌≡◌, refl, sym, ap, ◌∙◌, Bool, true, false, ◌&&◌, [], ◌∷◌, ◌++◌, arith, and-eq-true,
  length, all, length-append, Text, is_alphanumeric, split, has_byte, split_cons,
}
use komizo.Prelude.Split.{split-part_append}
use komizo.Preview.Hosts.{valid_label, is_label_byte, last_byte, last_label, alphabetic_tld}

-- A name that is a host: its length, its labels and its last label.
abbrev pub IsHostname : Text → Type 0
IsHostname host =
    (length host ≤ 253)
    × (all valid_label (split b'.' host) ≡ true)
    × (alphabetic_tld (last_label (split b'.' host)) ≡ true)

abbrev pub ends_well : Text → Bool
ends_well [] = false
ends_well (c ∷ s) = is_alphanumeric (last_byte c s)

pub last_byte-append :
    (c : ℕ) (s : Text) (d : ℕ) (t : Text) → last_byte c (s ++ d ∷ t) ≡ last_byte d t
last_byte-append c [] d t = refl
last_byte-append c (e ∷ s) d t = last_byte-append e s d t

pub ends_well-append : (s t : Text) → ends_well t ≡ true → ends_well (s ++ t) ≡ true
ends_well-append s [] h = absurd (cc)
ends_well-append [] (d ∷ t) h = h
ends_well-append (c ∷ s) (d ∷ t) h = rw (last_byte-append c s d t) h

all-front : (p : ℕ → Bool) (s t : Text) → all p (s ++ t) ≡ true → all p s ≡ true
all-front p [] t h = refl
all-front p (c ∷ s) t h = ground (arith, all-front p s t)

-- A label that is extended is a label, if it ends well.
valid_label-front :
    (s t : Text) → ends_well s ≡ true → valid_label (s ++ t) ≡ true → valid_label s ≡ true
unfolding valid_label
valid_label-front [] t e h = absurd (cc)
valid_label-front (c ∷ s) t e h =
    ground (arith, length-append s t, all-front is_label_byte (c ∷ s) t)

last_label-split : (l : Text) (s : Text) → last_label (l ∷ split b'.' s) ≡ last_label (split b'.' s)
last_label-split l s = let (m, ms, e) = split_cons b'.' s in rw e refl

-- A host with a part of its first label left out.
pub IsHostname-front :
    (label extra domain : Text)
    → has_byte b'.' label ≡ false
    → has_byte b'.' (label ++ extra) ≡ false
    → ends_well label ≡ true
    → IsHostname ((label ++ extra) ++ b'.' ∷ domain)
    → IsHostname (label ++ b'.' ∷ domain)
IsHostname-front label extra domain n n' e (short, labels, tld) =
    let here = split-part_append b'.' label domain n in
    let there = split-part_append b'.' (label ++ extra) domain n' in
    let (first, rest) = and-eq-true _ _ (sym (ap (all valid_label) there) ∙ labels) in
    let top = last_label-split (label ++ extra) domain in
    (
      shorter short,
      ap (all valid_label) here ∙ both (valid_label-front label extra e first) rest,
      ap (λ ls. alphabetic_tld (last_label ls)) here
          ∙ ap alphabetic_tld (last_label-split label domain ∙ sym top)
          ∙ ap (λ ls. alphabetic_tld (last_label ls)) (sym there)
          ∙ tld,
    )
  where
    shorter :
        length ((label ++ extra) ++ b'.' ∷ domain) ≤ 253 → length (label ++ b'.' ∷ domain) ≤ 253
    shorter short = ground (
      arith,
      length-append label (b'.' ∷ domain),
      length-append (label ++ extra) (b'.' ∷ domain),
      length-append label extra,
    )

    both : {a b : Bool} → a ≡ true → b ≡ true → (a && b) ≡ true
    both {a} {b} p q = ground arith

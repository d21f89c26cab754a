-- ===== src/Identity.antt =====
-- The identity formats: `identifier` and `revision` of src/workload/mod.rs, and the matchers of
-- src/workload/policy.rs. Each regular expression is a class of first bytes, a class of the rest and
-- a bound on the length; a text is the list of its bytes.
use komizo.Prelude.{
  ℕ, ◌≡◌, Bool, true, false, ◌&&◌, ◌||◌, [], ◌∷◌, arith, Text, leb, ◌==◌, is_digit, is_lower,
  is_alphanumeric, length, all,
}

-- `^[a-z][a-z0-9_-]{0,62}$`
unfoldable pub identifier : Text → Bool
identifier [] = false
identifier (c ∷ s) =
    is_lower c
    && all (λ b. is_lower b || is_digit b || b == b'_' || b == b'-') s
    && leb (length s) 62

-- `^[A-Za-z0-9][A-Za-z0-9._-]{0,127}$`
unfoldable pub revision : Text → Bool
revision [] = false
revision (c ∷ s) =
    is_alphanumeric c
    && all (λ b. is_alphanumeric b || b == b'.' || b == b'_' || b == b'-') s
    && leb (length s) 127

-- `[a-f0-9]`
abbrev pub is_hex : ℕ → Bool
is_hex c = leb b'a' c && leb c b'f' || is_digit c

abbrev hex_of_length : ℕ → Text → Bool
hex_of_length n s = all is_hex s && length s == n

-- `^[a-f0-9]{64}$`
unfoldable pub content_identity : Text → Bool
content_identity s = hex_of_length 64 s

-- `^[a-f0-9]{40}$`
unfoldable pub commit_id : Text → Bool
commit_id s = hex_of_length 40 s

-- `^[a-f0-9]{32}$`
unfoldable pub operation_identity : Text → Bool
operation_identity s = hex_of_length 32 s

-- `^[1-9][0-9]{0,19}$`
unfoldable pub numeric_id : Text → Bool
numeric_id [] = false
numeric_id (c ∷ s) = leb b'1' c && leb c b'9' && all is_digit s && leb (length s) 19

all-imp :
    (p q : ℕ → Bool)
    → ((c : ℕ) → p c ≡ true → q c ≡ true)
    → (s : Text) → all p s ≡ true
    → all q s ≡ true
all-imp p q imp [] h = h
all-imp p q imp (c ∷ s) h = ground (arith, imp c, all-imp p q imp s)

-- A commit is accepted wherever a revision is.
pub commit_id-revision : (s : Text) → commit_id s ≡ true → revision s ≡ true
unfolding commit_id revision
commit_id-revision [] h = cc
commit_id-revision (c ∷ s) h = ground (
  arith,
  all-imp is_hex (λ b. is_alphanumeric b || b == b'.' || b == b'_' || b == b'-')
      (λ b e. ground arith) s,
)

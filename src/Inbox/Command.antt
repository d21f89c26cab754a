-- ===== src/Inbox/Command.antt =====
-- A command and the checks of its envelope: `verify_command` of src/host/authority/commands.rs.
use komizo.Prelude.{
  ℕ, suc, ◌+◌, ◌*◌, ◌^◌, String, Bool, not, ◌&&◌, ◌||◌, Option, none, some, List, [], ◌∷◌, ◌++◌,
  leb, ◌==◌, if◌then◌else◌, length, is_empty, all, any, Text, codes, text_eq, is_alphanumeric,
}
use komizo.Prelude.Int.{ℤ, pos, negsuc, ◌+ℤ◌, ◌-ℤ◌, le_ℤ, eq_ℤ}
use komizo.Prelude.Result.{Result, ok, ensure, ok_or}
use komizo.Prelude.Result.{◌>>=◌, ◌>>◌}
use komizo.Operation.Record.{Time}
use komizo.Resources.Decimal.{print_ℤ}

pub record Command : Type 0 where
  pub v : ℤ
  pub id : Text
  pub srv : Text
  -- In seconds.
  pub exp : ℤ
  pub op : Text
  pub sub : Text
  pub args : List (Text × Text)

pub record Verified : Type 0 where
  pub command : Command
  pub signer : List ℕ
  pub unsupported : Option Text

-- What other code makes of bytes: the envelope's payload and signature, base64, ed25519, the strict
-- decoder of a command, and `quote`.
pub record Codec : Type 0 where
  pub envelope : List ℕ → Option (Text × Text)
  pub base64 : Text → Option (List ℕ)
  pub verifies : (key payload signature : List ℕ) → Bool
  pub command : List ℕ → Option Command
  pub quote : Text → Text

abbrev pub max_command_bytes : ℕ
max_command_bytes = 8 * 2 ^ 10

abbrev pub apply_ops : List Text
apply_ops =
    codes "app.start"
    ∷ codes "app.stop"
    ∷ codes "app.restart"
    ∷ codes "app.add"
    ∷ codes "app.rotate"
    ∷ []

abbrev read_ops : List Text
read_ops =
    codes "logs.read" ∷ codes "report.read" ∷ codes "history.read" ∷ codes "metrics.read" ∷ []

unfoldable pub known_op : Text → Bool
known_op op = any (text_eq op) apply_ops || any (text_eq op) read_ops

unfoldable pub alphabet : Text → Bool
alphabet value = all (λ b. is_alphanumeric b || b == b'_' || b == b'-') value

-- `valid_command_id(id).is_ok()`
unfoldable pub valid_command_id : Text → Bool
unfolding alphabet
valid_command_id id = not (is_empty id) && leb (length id) 64 && alphabet id

-- Nanoseconds of a number of seconds.
unfoldable pub expiry_of : ℤ → ℤ
expiry_of (pos n) = pos (n * 10 ^ 9)
expiry_of (negsuc n) = pos 0 -ℤ pos (suc n * 10 ^ 9)

-- `instant <= expiry + 30_000_000_000 && expiry <= instant + 330_000_000_000`
unfoldable pub in_window : Time → ℤ → Bool
in_window now expiry =
    le_ℤ (pos now) (expiry +ℤ pos (30 * 10 ^ 9)) && le_ℤ expiry (pos (now + 330 * 10 ^ 9))

unfoldable pub addressed : Command → Text → Time → Bool
unfolding valid_command_id expiry_of in_window alphabet
addressed c server now =
    valid_command_id c.id
    && not (is_empty server)
    && text_eq c.srv server
    && in_window now (expiry_of c.exp)
    && leb (length c.sub) 64
    && alphabet c.sub

unfoldable pub find_signer : (verifies : List ℕ → Bool) → List (List ℕ) → Option (List ℕ)
find_signer verifies [] = none
find_signer verifies (key ∷ keys) =
    let found = find_signer verifies keys in if verifies key then some key else found

abbrev pub refusal : String
refusal = "this box will not act on that"

-- The part after the command is decoded.
unfoldable pub check_command : Codec → Command → (signer : List ℕ) → Text → Time → Result Verified
unfolding addressed known_op
check_command codec c signer server now =
    if not (eq_ℤ c.v (pos 1))
    then ok (record {
      command = c;
      signer = signer;
      unsupported =
          some (codes "this command is v" ++ print_ℤ c.v ++ codes " and this box speaks v1");
    })
    else (do
      ensure (addressed c server now) refusal
      if not (known_op c.op)
          then ok (record {
            command = c;
            signer = signer;
            unsupported = some (codes "this box does not know how to " ++ codec.quote c.op);
          })
          else (do
            ensure (all (λ (k, v). leb (length k) 64 && leb (length v) 256) c.args) refusal
            ok (record { command = c; signer = signer; unsupported = none })))

unfoldable pub verify_command :
    Codec → (keys : List (List ℕ)) → (raw : List ℕ) → (server : Text) → Time → Result Verified
unfolding find_signer check_command
verify_command codec keys raw server now = do
  ensure (leb (length raw) max_command_bytes) refusal
  (payload64, sig64) ← ok_or (codec.envelope raw) refusal
  payload ← ok_or (codec.base64 payload64) refusal
  ensure (not (is_empty payload) && leb (length payload) max_command_bytes) refusal
  signature ← ok_or (codec.base64 sig64) refusal
  ensure (length signature == 64) refusal
  signer ← ok_or (find_signer (λ key. codec.verifies key payload signature) keys) refusal
  c ← ok_or (codec.command payload) refusal
  check_command codec c signer server now

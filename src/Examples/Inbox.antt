-- ===== src/Examples/Inbox.antt =====
-- The inbox theorem at one box, whose inbox holds the same command at each reading.
use komizo.Prelude.{
  ℕ, ◌+◌, ◌-◌, ◌*◌, ◌^◌, ◌≡◌, refl, true, false, none, some, List, [], ◌∷◌, if◌then◌else◌, codes,
}
use komizo.Prelude.Int.{ℤ, pos, ◌+ℤ◌}
use komizo.Prelude.Result.{ok}
use komizo.Operation.Record.{written}
use komizo.Inbox.Command.{Codec, Command, Verified, verify_command}
use komizo.Inbox.Apply.{Effects, Box, AgentConf}
use komizo.Inbox.Sound.{Distinct}
use komizo.Inbox.Genuine.{IsGenuine, verify_command-IsGenuine}
use komizo.Inbox.Once.{Step, apply, pruning, run, run-Distinct}

abbrev command : Command
command = record {
  v = pos 1;
  id = codes "c1";
  srv = codes "srv";
  exp = pos 1100;
  op = codes "app.stop";
  sub = codes "sub";
  args = [];
}

abbrev signature : List ℕ
signature = codes "0123456789012345678901234567890123456789012345678901234567890123"

abbrev codec : Codec
codec = record {
  envelope = λ raw. some (codes "payload", signature);
  base64 = λ text. some text;
  verifies = λ key payload s. true;
  command = λ payload. some command;
  quote = λ text. text;
}

-- One second passes between two readings of the clock.
abbrev effects : Effects ℕ
effects = record {
  codec = codec;
  elapsed = λ w. (10 ^ 9, w);
  entries =
      λ w. (some (record { name = codes "c1"; modified = some w; directory = false } ∷ []), w);
  remove = λ e w. w;
  raw = λ name w. (ok (some (codes "raw")), w);
  disk = λ w. (written, w);
  perform = λ c actor w. (ok tt, w);
  removes = λ w id. true;
  device = λ key. [];
  render = λ fault. [];
  lossy = λ bytes. bytes;
}

abbrev start : Box ℕ
start = record {
  results = λ id. none;
  performed = [];
  now = 1000 * 10 ^ 9;
  errors = [];
  world = 1000 * 10 ^ 9;
}

abbrev conf : AgentConf
conf = record { can_command = true; trusted_keys = ok (codes "key" ∷ []); server_id = codes "srv" }

abbrev steps : List Step
steps = apply conf ∷ pruning ∷ apply conf ∷ []

run_example : (run effects steps start).performed ≡ command ∷ []
unfolding run komizo.Prelude.text_eq komizo.Prelude.Int.◌+ℤ◌
run_example = refl

run-Distinct_example : Distinct (run effects steps start).performed
run-Distinct_example = run-Distinct effects steps start refl (λ id s e. cc)

abbrev verified : Verified
verified = record { command = command; signer = codes "key"; unsupported = none }

accepted :
    verify_command codec (codes "key" ∷ []) (codes "raw") (codes "srv") (1000 * 10 ^ 9)
    ≡ ok verified
unfolding verify_command komizo.Prelude.text_eq ◌+ℤ◌
accepted = refl

verify_command-IsGenuine_example :
    IsGenuine codec (codes "key" ∷ []) (codes "raw") (codes "srv") (1000 * 10 ^ 9) verified
verify_command-IsGenuine_example =
    verify_command-IsGenuine codec (codes "key" ∷ []) (codes "raw") (codes "srv") (1000 * 10 ^ 9)
      verified accepted refl

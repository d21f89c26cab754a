-- ===== src/Inbox/Genuine.antt =====
-- What `verify_command` of src/host/authority/commands.rs promises of a command that it accepts.
use komizo.Prelude.{
  ℕ, String, ◌≡◌, refl, sym, ap, ◌∙◌, Bool, true, false, not, ◌&&◌, none, some, List, [], ◌∷◌,
  arith, leb, ◌==◌, if◌then◌else◌, length, is_empty, all, Text, text_eq, text_eq_sound,
}
use komizo.Prelude.Int.{pos, eq_ℤ}
use komizo.Prelude.Result.{Result, ok, err, ensure, ok_or, OfOk, >>=-OfOk, OfOk-ok, ok_or-eq-ok}
use mathlib.Core.List.{Mem, mem-cons_self, mem-cons_of_mem}
use mathlib.Core.Option.{some-injective}
use mathlib.Core.Path.{subst}
use komizo.Operation.Record.{Time}
use komizo.Inbox.Command.{
  Codec, Command, Verified, verify_command, check_command, addressed, known_op, in_window,
  valid_command_id, find_signer, max_command_bytes, refusal,
}
use komizo.Inbox.Sound.{expiry}

-- The key is one of these, and verifies.
find_signer-some :
    (verifies : List ℕ → Bool) (keys : List (List ℕ)) (key : List ℕ)
    → find_signer verifies keys ≡ some key
    → Mem key keys × (verifies key ≡ true)
unfolding find_signer
find_signer-some verifies [] key e = absurd (cc)
find_signer-some verifies (k ∷ ks) key e =
    elim (verifies k)
        as (λ b.
          verifies k ≡ b
          → (if b then some k else find_signer verifies ks) ≡ some key
          → Mem key (k ∷ ks) × (verifies key ≡ true)) [
            | true ↦ λ good e.
                let same = some-injective k key e in
                (
                  subst (λ x. Mem x (k ∷ ks)) same mem-cons_self,
                  subst (λ x. verifies x ≡ true) same good,
                )
            | false ↦ λ bad e.
                let (member, good) = find_signer-some verifies ks key e in
                (mem-cons_of_mem k member, good)
          ]
      refl e

-- The bytes are an envelope whose payload, which one of these keys signed, is the command; it is
-- addressed to this server, now is in its window, and its operation is one that the box knows.
pub record IsGenuine (codec : Codec) (keys : List (List ℕ)) (raw : List ℕ) (server : Text)
    (now : Time) (v : Verified) : Type 0 where
  pub payload64 : Text
  pub sig64 : Text
  pub payload : List ℕ
  pub signature : List ℕ
  pub enveloped : codec.envelope raw ≡ some (payload64, sig64)
  pub decoded : codec.base64 payload64 ≡ some payload
  pub signed : codec.base64 sig64 ≡ some signature
  pub trusted : Mem v.signer keys
  pub verifies : codec.verifies v.signer payload signature ≡ true
  pub content : codec.command payload ≡ some v.command
  pub id_valid : valid_command_id v.command.id ≡ true
  pub ours : v.command.srv ≡ server
  pub current : in_window now (expiry v.command) ≡ true
  pub known : known_op v.command.op ≡ true

if-OfOk {ℓ κ} :
    {A : Type ℓ} (P : A → Type κ) (b : Bool) (r s : Result A)
    → (b ≡ true → OfOk P r)
    → (b ≡ false → OfOk P s)
    → OfOk P (if b then r else s)
if-OfOk P true r s h k = h refl
if-OfOk P false r s h k = k refl

ensure-true : (b : Bool) (text : String) → ensure b text ≡ ok tt → b ≡ true
ensure-true true text e = refl
ensure-true false text e = absurd (cc)

not-false : (b : Bool) → not b ≡ false → b ≡ true
not-false b e = ground arith

OfOk-map {ℓ κ ν} :
    {A : Type ℓ} (P : A → Type κ) (Q : A → Type ν) (r : Result A)
    → OfOk P r
    → ((a : A) → P a → Q a)
    → OfOk Q r
OfOk-map P Q (ok a) h f = f a h
OfOk-map P Q (err e) h f = tt

-- The last part of the checks.
abbrev Checked : Text → Time → Command → List ℕ → Verified → Type 0
Checked server now c signer v =
    v.unsupported ≡ none
    → (v.command ≡ c)
      × (v.signer ≡ signer)
      × (valid_command_id c.id ≡ true)
      × (text_eq c.srv server ≡ true)
      × (in_window now (expiry c) ≡ true)
      × (known_op c.op ≡ true)

addressed-true :
    (c : Command) (server : Text) (now : Time)
    → addressed c server now ≡ true
    → (valid_command_id c.id ≡ true)
      × (text_eq c.srv server ≡ true)
      × (in_window now (expiry c) ≡ true)
unfolding addressed
addressed-true c server now h = ground arith

check_command-Checked :
    (codec : Codec) (c : Command) (signer : List ℕ) (server : Text) (now : Time)
    → OfOk (Checked server now c signer) (check_command codec c signer server now)
unfolding check_command
check_command-Checked codec c signer server now =
    if-OfOk (Checked server now c signer) (not (eq_ℤ c.v (pos 1))) _ _ (λ old. cc)
      λ new.
        >>=-OfOk (Checked server now c signer) (ensure (addressed c server now) refusal) _ λ done e.
          if-OfOk (Checked server now c signer) (not (known_op c.op)) _ _ (λ strange. cc)
            λ known.
              >>=-OfOk (Checked server now c signer)
                (ensure (all (λ (k, v). leb (length k) 64 && leb (length v) 256) c.args) refusal) _
                λ fits short u.
                  let (id, ours, current) = addressed-true c server now (ensure-true _ _ e) in
                  (refl, refl, id, ours, current, not-false (known_op c.op) known)

abbrev Genuine : Codec → List (List ℕ) → List ℕ → Text → Time → Verified → Type 0
Genuine codec keys raw server now v = v.unsupported ≡ none → IsGenuine codec keys raw server now v

genuine :
    (codec : Codec) (keys : List (List ℕ)) (raw : List ℕ) (server : Text) (now : Time)
    → OfOk (Genuine codec keys raw server now) (verify_command codec keys raw server now)
unfolding verify_command
genuine codec keys raw server now =
    >>=-OfOk (Genuine codec keys raw server now)
      (ensure (leb (length raw) max_command_bytes) refusal) _
      λ fits fit.
        >>=-OfOk (Genuine codec keys raw server now) (ok_or (codec.envelope raw) refusal) _
          λ (payload64, sig64) enveloped.
            >>=-OfOk (Genuine codec keys raw server now) (ok_or (codec.base64 payload64) refusal) _
              λ payload decoded.
                >>=-OfOk (Genuine codec keys raw server now)
                  (ensure (not (is_empty payload) && leb (length payload) max_command_bytes)
                    refusal)
                  _
                  λ small s.
                    >>=-OfOk (Genuine codec keys raw server now)
                      (ok_or (codec.base64 sig64) refusal) _
                      λ signature signed.
                        >>=-OfOk (Genuine codec keys raw server now)
                          (ensure (length signature == 64) refusal) _
                          λ whole w.
                            >>=-OfOk (Genuine codec keys raw server now)
                              (ok_or
                                (find_signer (λ key. codec.verifies key payload signature) keys)
                                refusal)
                              _
                              λ signer found.
                                >>=-OfOk (Genuine codec keys raw server now)
                                  (ok_or (codec.command payload) refusal) _
                                  λ c content.
                                    OfOk-map (Checked server now c signer)
                                      (Genuine codec keys raw server now)
                                      (check_command codec c signer server now)
                                      (check_command-Checked codec c signer server now)
                                      λ v checked u.
                                        let (same, by, id, ours, current, known) = checked u in
                                        let (member, good) =
                                          find_signer-some
                                            (λ key. codec.verifies key payload signature) keys
                                            signer (ok_or-eq-ok _ _ found) in
                                        record {
                                          payload64 = payload64;
                                          sig64 = sig64;
                                          payload = payload;
                                          signature = signature;
                                          enveloped = ok_or-eq-ok _ _ enveloped;
                                          decoded = ok_or-eq-ok _ _ decoded;
                                          signed = ok_or-eq-ok _ _ signed;
                                          trusted = subst (λ key. Mem key keys) (sym by) member;
                                          verifies =
                                              subst
                                                (λ key. codec.verifies key payload signature ≡ true)
                                                (sym by) good;
                                          content = ok_or-eq-ok _ _ content ∙ ap some (sym same);
                                          id_valid =
                                              ap (λ (c : Command). valid_command_id c.id) same ∙ id;
                                          ours =
                                              ap (λ (c : Command). c.srv) same
                                              ∙ text_eq_sound c.srv server ours;
                                          current =
                                              ap (λ (c : Command). in_window now (expiry c)) same
                                              ∙ current;
                                          known = ap (λ (c : Command). known_op c.op) same ∙ known;
                                        }

-- A supported command is accepted only if the bytes are an envelope whose payload decodes to the
-- command and carries a good signature of one of the trusted keys, its id is well formed, it names
-- this server, the clock is within its window, and its operation is one that the box knows.
pub verify_command-IsGenuine :
    (codec : Codec) (keys : List (List ℕ)) (raw : List ℕ) (server : Text) (now : Time)
    (v : Verified)
    → verify_command codec keys raw server now ≡ ok v
    → v.unsupported ≡ none
    → IsGenuine codec keys raw server now v
verify_command-IsGenuine codec keys raw server now v e =
    OfOk-ok (Genuine codec keys raw server now) _ (genuine codec keys raw server now) e

-- ===== src/Examples/Sealing.antt =====
-- A signed envelope, under a code that keeps the bytes of a message.
use safeops_agent.Contracts.Envelope.{
  ActionEnvelope, Sealing, bytes_eq, sign, signing_bytes, verify_signature,
}
use safeops_agent.Contracts.Hex.{hex_decode, hex_encode}
use safeops_agent.Contracts.Sealed.{verify_signature-sign}
use safeops_agent.Contracts.Snapshot.{TargetSnapshot, pos}
use safeops_agent.Examples.Guarding.{pipeline, restart}
use safeops_agent.Guard.Risk.{evaluate_risk}
use safeops_agent.Prelude.{
  All, List, [], arith, false, none, ok, refl, suc, zero, ℕ, ◌%◌, ◌<◌, ◌∷◌, ◌≡◌,
}

abbrev byte : ℕ → ℕ
byte b = b % 256

abbrev bytes : List ℕ → List ℕ
bytes [] = []
bytes (b ∷ bs) = byte b ∷ bytes bs

bytes-All : (bs : List ℕ) → All (λ b. b < 256) (bytes bs)
bytes-All [] = tt
bytes-All (b ∷ bs) = (omega arith, bytes-All bs)

-- Every envelope has the same encoding here.
abbrev pub sealing : Sealing
sealing = record { marshal_envelope = λ e. ok (7 ∷ 11 ∷ []); hmac_sha256 = λ k m. bytes m }

abbrev zeros : ℕ → List ℕ
zeros zero = []
zeros (suc n) = 0 ∷ zeros n

abbrev pub secret : List ℕ
secret = zeros 32

abbrev pub snapshot : TargetSnapshot
snapshot = record {
  kind = "service";
  id = "web.service";
  canonical_path = "";
  expect_absent = false;
  parent_path = "";
  parent_inode = 0;
  size = pos 0;
  mtime_unix_nano = pos 0;
  mode = 0;
  inode = 0;
  pid = pos 0;
  start_ticks = 0;
  command_digest = "";
  executable = "";
  uid = pos 0;
  service_name = "web.service";
  active_state = "active";
  main_pid = pos 42;
}

abbrev pub unsigned : ActionEnvelope
unsigned = record {
  schema_version = 1;
  trace_id = "trace";
  task_id = "t1";
  session_id = "s1";
  proposal = restart;
  proposal_digest = "digest";
  target_snapshot = snapshot;
  risk = evaluate_risk pipeline.risk restart;
  intent_digest = "goal";
  policy_version = "v1";
  expires_at = 5000;
  nonce = "nonce";
  approval_id = "a1";
  signature = "";
}

abbrev pub signed : ActionEnvelope
signed = record unsigned { signature = "070b" }

unsigned_signed : sign sealing secret unsigned ≡ ok signed
unfolding sign signing_bytes hex_encode
unsigned_signed = refl

verify_signature-sign_example : verify_signature sealing secret signed ≡ none
verify_signature-sign_example =
    verify_signature-sign sealing secret unsigned (λ k m. bytes-All m) unsigned_signed

pub signed_accepted : verify_signature sealing secret signed ≡ none
unfolding verify_signature signing_bytes hex_decode bytes_eq
signed_accepted = refl

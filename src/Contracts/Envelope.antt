-- ===== src/Contracts/Envelope.antt =====
-- contracts/envelope.go: the signed envelope of an action. Times are nanoseconds since an epoch
-- before every time in use, and 0 is Go's zero time.
use safeops_agent.Prelude.{
  ℕ, String, List, Result, ok, err, Option, none, some, ltb, if◌then◌else◌, Bool, true, false,
  length, ◌&&◌, eqb, [], ◌∷◌,
}
use safeops_agent.Contracts.Action.{ActionProposal, RiskResult}
use safeops_agent.Contracts.Snapshot.{TargetSnapshot}
use safeops_agent.Contracts.Hex.{hex_encode, hex_decode}

pub record ActionEnvelope : Type 0 where
  pub schema_version : ℕ
  pub trace_id : String
  pub task_id : String
  pub session_id : String
  pub proposal : ActionProposal
  pub proposal_digest : String
  pub target_snapshot : TargetSnapshot
  pub risk : RiskResult
  pub intent_digest : String
  pub policy_version : String
  pub expires_at : ℕ
  pub nonce : String
  pub approval_id : String
  pub signature : String

-- What the envelopes take from Go's standard library: `json.Marshal` of an envelope, and
-- HMAC-SHA-256 of a key and a message, as bytes.
pub record Sealing : Type 0 where
  pub marshal_envelope : ActionEnvelope → Result (List ℕ)
  pub hmac_sha256 : List ℕ → List ℕ → List ℕ

module _ (c : Sealing) where
  open c use {marshal_envelope, hmac_sha256}

  -- `SigningBytes`: the encoding with an empty signature.
  unfoldable pub signing_bytes : ActionEnvelope → Result (List ℕ)
  signing_bytes e = marshal_envelope (record e { signature = "" })

  -- `Sign` changes the signature, and on an error nothing.
  unfoldable pub sign : List ℕ → ActionEnvelope → Result ActionEnvelope
  sign secret e =
      if ltb (length secret) 32
      then err "envelope HMAC secret must be at least 32 bytes"
      else elim (signing_bytes e) [
        | ok payload ↦ ok (record e { signature = hex_encode (hmac_sha256 secret payload) })
        | err x ↦ err x
      ]

-- `hmac.Equal`
unfoldable pub bytes_eq : List ℕ → List ℕ → Bool
bytes_eq [] [] = true
bytes_eq (a ∷ as') (b ∷ bs) = eqb a b && bytes_eq as' bs
bytes_eq _ _ = false

module _ (c : Sealing) where
  open c use {marshal_envelope, hmac_sha256}

  -- `VerifySignature`; `none` is a nil error.
  unfoldable pub verify_signature : List ℕ → ActionEnvelope → Option String
  verify_signature secret e =
      if ltb (length secret) 32
      then some "envelope HMAC secret must be at least 32 bytes"
      else elim (hex_decode e.signature) [
        | none ↦ some "invalid envelope signature encoding"
        | some got ↦ elim (signing_bytes c e) [
          | err x ↦ some x
          | ok payload ↦
              if bytes_eq got (hmac_sha256 secret payload)
              then none
              else some "invalid envelope signature"
        ]
      ]

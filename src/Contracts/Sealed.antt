-- ===== src/Contracts/Sealed.antt =====
-- contracts/envelope.go: `Sign` and `VerifySignature` together.
use safeops_agent.Prelude.{
  ℕ, String, true, false, List, [], ◌∷◌, ◌≡◌, ◌<◌, refl, ap, ◌∙◌, none, some, inl, inr, All, ok,
  length, arith, ltb, Bool-cases, Result-cases,
}
use safeops_agent.Contracts.Hex.{hex_encode, hex_decode, hex_decode-hex_encode}
use safeops_agent.Contracts.Envelope.{
  ActionEnvelope, Sealing, sign, verify_signature, signing_bytes, bytes_eq,
}

pub bytes_eq_refl : (bs : List ℕ) → bytes_eq bs bs ≡ true
unfolding bytes_eq
bytes_eq_refl [] = refl
bytes_eq_refl (b ∷ bs) = ground (arith, bytes_eq_refl bs)

sign-eq-ok :
    (c : Sealing) (secret : List ℕ) (e : ActionEnvelope) {s : ActionEnvelope}
    → sign c secret e ≡ ok s
    → (p : List ℕ) × (ltb (length secret) 32 ≡ false)
      × (signing_bytes c e ≡ ok p)
      × (s ≡ record e { signature = hex_encode (c.hmac_sha256 secret p) })
unfolding sign
sign-eq-ok c secret e h = elim (Bool-cases (ltb (length secret) 32)) [
  | inl short ↦ ground arith
  | inr long ↦ elim (Result-cases (signing_bytes c e)) [
    | inl (x, bad) ↦ ground (arith)
    | inr (p, good) ↦ (p, long, good, ground arith)
  ]
]

signing_bytes-signature :
    (c : Sealing) (e : ActionEnvelope) (x : String)
    → signing_bytes c (record e { signature = x }) ≡ signing_bytes c e
unfolding signing_bytes
signing_bytes-signature c e x = refl

-- A signature that `Sign` puts on an envelope is accepted by `VerifySignature` under the same
-- secret, provided that the HMAC of a message is a list of bytes.
pub verify_signature-sign :
    (c : Sealing) (secret : List ℕ) (e : ActionEnvelope) {s : ActionEnvelope}
    → ((k m : List ℕ) → All (λ b. b < 256) (c.hmac_sha256 k m))
    → sign c secret e ≡ ok s
    → verify_signature c secret s ≡ none
unfolding verify_signature
verify_signature-sign c secret e {s} bytes h =
    let (p, long, good, eq) = sign-eq-ok c secret e h in
    let mac = c.hmac_sha256 secret p in
    let payload : signing_bytes c s ≡ ok p =
      cc (eq, signing_bytes-signature c e (hex_encode mac)) in
    let decoded : hex_decode s.signature ≡ some mac =
      ap (λ (t : ActionEnvelope). hex_decode t.signature) eq
      ∙ hex_decode-hex_encode mac (bytes secret p) in
    rw (long, decoded) (rw payload (rw bytes_eq_refl))

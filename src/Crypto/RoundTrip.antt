-- ===== src/Crypto/RoundTrip.antt =====
-- What internal/crypto/identity.go signs, it verifies.
use distributed_multi_agent.Base.{
  ◌≡◌, true, Bytes, ok, arith, hex_encode, hex_decode-hex_encode, Result-cases, inl, inr,
}
use distributed_multi_agent.Crypto.{
  Identity, IsSound, Libp2p, generate_identity, sign, verify_signature,
}

pub made_parts :
    (p : Libp2p) (seed : Bytes) (id : Identity)
    → generate_identity p seed ≡ ok id
    → (p.generate seed ≡ ok (id.priv_key, id.pub_key))
      × (p.id_from_public_key id.pub_key ≡ ok id.peer_id)
unfolding generate_identity
made_parts p seed id made = elim (Result-cases (p.generate seed)) [
  | inr (e, failed) ↦ ground arith
  | inl ((priv, public), keys) ↦ elim (Result-cases (p.id_from_public_key public)) [
    | inr (e, failed) ↦ ground arith
    | inl (pid, derived) ↦ ground arith
  ]
]

signed_parts :
    (p : Libp2p) (id : Identity) (text sig_hex : Bytes)
    → sign p id text ≡ ok sig_hex
    → (sig : Bytes) × (p.sign id.priv_key text ≡ ok sig) × (sig_hex ≡ hex_encode sig)
unfolding sign
signed_parts p id text sig_hex signed = elim (Result-cases (p.sign id.priv_key text)) [
  | inr (e, failed) ↦ ground arith
  | inl (sig, made) ↦ (sig, made, ground arith)
]

-- With a sound libp2p, a signature made by a generated identity is accepted under its peer ID, for
-- the text that was signed.
pub verify_signature-sign :
    (p : Libp2p) (s : IsSound p) (seed text sig : Bytes) (id : Identity)
    → generate_identity p seed ≡ ok id
    → sign p id text ≡ ok sig
    → verify_signature p id.peer_id text sig ≡ ok true
unfolding generate_identity sign verify_signature
verify_signature-sign p s seed text sig id made signed =
    let (keys, derived) = made_parts p seed id made in
    let (raw, made_sig, e) = signed_parts p id text sig signed in
    ground (
      arith,
      hex_decode-hex_encode raw (s.sign_bytes id.priv_key text raw made_sig),
      s.extract_id seed id.priv_key id.pub_key id.peer_id keys derived,
      s.verify_sign seed id.priv_key id.pub_key text raw keys made_sig,
    )

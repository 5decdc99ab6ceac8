-- ===== src/Crypto.antt =====
-- internal/crypto/identity.go: key pairs, signatures in hexadecimal, and their check against the key
-- that a peer ID holds. The keys and signatures themselves are libp2p's.
pub mod RoundTrip
use distributed_multi_agent.Base.{
  Bool, Bytes, bytes, Result, ok, err, ◌>>=◌, wrap, hex_encode, hex_decode, ◌++◌, ◌≡◌, true,
  AllBytes,
}

-- What the code calls of libp2p's `crypto` and `peer` packages, keys and binary peer IDs being byte
-- strings. `generate` draws its randomness from its argument.
pub record Libp2p : Type 0 where
  pub generate : Bytes → Result (Bytes × Bytes)
  pub id_from_public_key : Bytes → Result Bytes
  pub sign : Bytes → Bytes → Result Bytes
  pub extract_public_key : Bytes → Result Bytes
  pub verify : Bytes → Bytes → Bytes → Result Bool
  pub encode : Bytes → Bytes
  pub decode : Bytes → Result Bytes

-- What the packages promise: a signature by a generated key is checked by its public key, an ID made
-- from an Ed25519 key gives the key back, and the text of an ID that was made from a key
-- decodes to it.
pub record IsSound (p : Libp2p) : Type 0 where
  pub verify_sign :
      (seed priv public text sig : Bytes)
      → p.generate seed ≡ ok (priv, public)
      → p.sign priv text ≡ ok sig
      → p.verify public text sig ≡ ok true
  pub extract_id :
      (seed priv public pid : Bytes)
      → p.generate seed ≡ ok (priv, public)
      → p.id_from_public_key public ≡ ok pid
      → p.extract_public_key pid ≡ ok public
  pub decode_encode :
      (public pid : Bytes) → p.id_from_public_key public ≡ ok pid → p.decode (p.encode pid) ≡ ok pid
  pub sign_bytes : (priv text sig : Bytes) → p.sign priv text ≡ ok sig → AllBytes sig

pub record Identity : Type 0 where
  pub priv_key : Bytes
  pub pub_key : Bytes
  pub peer_id : Bytes

module _ (p : Libp2p) where
  unfoldable pub generate_identity : Bytes → Result Identity
  generate_identity seed = do
    (priv, public) ← wrap (bytes "generate ed25519 key") (p.generate seed)
    pid ← wrap (bytes "derive peer id") (p.id_from_public_key public)
    ok (record { priv_key = priv; pub_key = public; peer_id = pid })

  -- `Identity.Sign`.
  unfoldable pub sign : Identity → Bytes → Result Bytes
  sign id text = do sig ← wrap (bytes "sign") (p.sign id.priv_key text); ok (hex_encode sig)

  unfoldable pub verify_signature : Bytes → Bytes → Bytes → Result Bool
  verify_signature sender_id text sig_hex = do
    sig ← wrap (bytes "decode signature hex") (hex_decode sig_hex)
    public ←
        wrap (bytes "extract public key from " ++ p.encode sender_id)
          (p.extract_public_key sender_id)
    p.verify public text sig

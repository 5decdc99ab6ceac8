-- ===== src/Validate/EndToEnd.antt =====
-- From the sender to the validator of another node: internal/crypto/identity.go and
-- internal/types/message.go against internal/p2p/validate.go.
use distributed_multi_agent.Base.{
  ℕ, ◌≤◌, ◌<◌, ◌≡◌, ◌≢◌, [], List, Bool, false, Option, none, some, arith, length, Bytes, at, GoMap,
  ok,
}
use distributed_multi_agent.Clock.Merge.{at-copy}
use distributed_multi_agent.Crypto.RoundTrip.{made_parts, verify_signature-sign}
use distributed_multi_agent.Crypto.{Identity, IsSound, Libp2p, generate_identity, sign}
use distributed_multi_agent.Trust.{TrustTracker}
use distributed_multi_agent.Types.{Codec, Message, new_message, signable, signable_bytes}
use distributed_multi_agent.Validate.Signed.{signed_complete}
use distributed_multi_agent.Validate.{quarantined, validate_signed_message}

-- `msg.Signature = sig` after `msg.SignableBytes()`.
abbrev pub signed_with : Message → Bytes → Message
signed_with msg sig = record msg { signature = sig }

module _ (p : Libp2p) (c : Codec) (s : IsSound p) where
  -- With a sound libp2p, a message that a node makes with `NewMessage` under its own peer ID and signs
  -- passes
  -- `ValidateSignedMessage`, with any tracker and whichever peer forwards it, if its ID, its sender ID
  -- and its sender name are not empty, its content is at most 8192 bytes long, its own counter in the
  -- clock is positive, and the tracker does not have the sender in quarantine; the tracker is left as
  -- it is. The limits of a packet, on its size and its rate, are no part of this.
  pub signed_message_accepted :
      (seed id name content : Bytes) (mentions : List Bytes) (all : Bool) (vc : GoMap ℕ)
      (prev_hash : Bytes) (is_ai : Bool) (node : Identity) (text sig : Bytes)
      (trust : Option TrustTracker) (fwd : Bytes)
      → generate_identity p seed ≡ ok node
      → signable_bytes c
          (new_message id (p.encode node.peer_id) name content mentions all vc prev_hash is_ai)
        ≡ ok text
      → sign p node text ≡ ok sig
      → id ≢ []
      → p.encode node.peer_id ≢ []
      → name ≢ []
      → length content ≤ 8192
      → 0 < at vc (p.encode node.peer_id)
      → quarantined p c trust (p.encode node.peer_id) ≡ false
      → validate_signed_message p c
          (some (
            signed_with
              (new_message id (p.encode node.peer_id) name content mentions all vc prev_hash is_ai)
              sig))
          trust
          fwd
        ≡ (none, trust)
  unfolding new_message signable_bytes signable
  signed_message_accepted seed id name content mentions all vc prev_hash is_ai node text sig trust
        fwd made marshalled signed i f n short clock trusted =
      signed_complete p c _ trust fwd (record {
        named = i;
        from = f;
        sender_named = n;
        short = short;
        trusted = trusted;
        clocked = omega (arith, at-copy vc (p.encode node.peer_id));
        signed = record {
          peer = node.peer_id;
          text = text;
          decoded = s.decode_encode node.pub_key node.peer_id (made_parts p seed node made).1;
          marshalled = marshalled;
          verified = verify_signature-sign p s seed text sig node made signed;
        };
      })

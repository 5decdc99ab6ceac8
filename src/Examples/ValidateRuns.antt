-- ===== src/Examples/ValidateRuns.antt =====
-- internal/crypto/identity.go and internal/p2p/validate.go with a toy key scheme and decoder.
use distributed_multi_agent.Base.{
  ℕ, ◌%◌, ◌<◌, ◌≡◌, ◌↔◌, ◌⊎◌, refl, [], ◌∷◌, true, false, none, some, arith, length, bytes, Bytes,
  All, at, GoMap, Option, ok, err,
}
use distributed_multi_agent.Crypto.{Identity, IsSound, Libp2p, generate_identity, sign}
use distributed_multi_agent.Examples.Sample.{alice, bob, validate_code}
use distributed_multi_agent.Trust.{TrustTracker, is_quarantined, new_trust_tracker, record_reject}
use distributed_multi_agent.Types.{Codec, Message, new_message, signable_bytes}
use distributed_multi_agent.Validate.Accepted.{accepted_response}
use distributed_multi_agent.Validate.Blame.{
  CountsOne, accused, quarantine_spreads, validate_signed_message_blames,
}
use distributed_multi_agent.Validate.EndToEnd.{signed_message_accepted, signed_with}
use distributed_multi_agent.Validate.Envelope.{IsBound, IsGood}
use distributed_multi_agent.Validate.Signed.{IsAcceptable, validate_signed_message_iff}
use distributed_multi_agent.Validate.{
  eqb, quarantined, validate_envelope_data, validate_signed_message,
}
use distributed_multi_agent.Wire.{Control, Decoder}

-- Keys are their seeds, and a signature is the length of the text.
abbrev pub toy : Libp2p
toy = record {
  generate = λ seed. ok (seed, seed);
  id_from_public_key = λ public. ok public;
  sign = λ priv text. ok (length text % 256 ∷ []);
  extract_public_key = λ pid. ok pid;
  verify = λ public text sig. ok (eqb sig (length text % 256 ∷ []));
  encode = λ pid. pid;
  decode = λ pid. ok pid;
}

toy-IsSound : IsSound toy
toy-IsSound = record {
  verify_sign = λ seed priv public text sig made signed. ground arith;
  extract_id = λ seed priv public pid made derived. ground arith;
  decode_encode = λ public pid derived. refl;
  sign_bytes = λ priv text sig signed. ground arith;
}

abbrev pub codec : Codec
codec = record { marshal = λ s. ok s.content; sha256 = λ text. text }

abbrev pub node : Identity
node = record { priv_key = alice; pub_key = alice; peer_id = alice }

abbrev clock : GoMap ℕ
clock = (alice, 1) ∷ []

abbrev pub plain : Message
plain = new_message (bytes "m1") alice alice (bytes "hi") [] false clock [] false

abbrev signed : Message
signed = signed_with plain (bytes "02")

abbrev pub packet : Control
packet = record {
  kind = bytes "sync_response";
  request_id = bytes "r1";
  from_peer_id = bob;
  known_ids = [];
  messages = some signed ∷ [];
  forwarded_by = [];
}

-- A decoder that reads every packet as one of the kind `kind`.
abbrev pub reads : Bytes → Decoder
reads kind = record {
  kind = λ text. ok kind;
  activity = λ text. err [];
  control = λ text. ok packet;
  message = λ text. ok signed;
}

abbrev pub fresh : Option TrustTracker
fresh = some new_trust_tracker

made : generate_identity toy alice ≡ ok node
unfolding validate_code
made = refl

marshalled : signable_bytes codec plain ≡ ok (bytes "hi")
unfolding validate_code
marshalled = refl

signs : sign toy node (bytes "hi") ≡ ok (bytes "02")
unfolding validate_code
signs = refl

alice_clocked : 0 < at clock alice
unfolding validate_code
alice_clocked = omega arith

alice_trusted : quarantined toy codec fresh alice ≡ false
unfolding validate_code
alice_trusted = refl

pub response_passes :
    (validate_envelope_data toy codec (reads (bytes "sync_response")) (bytes "{}") bob fresh 9).0
    ≡ none
unfolding validate_code
response_passes = refl

request_passes :
    (validate_envelope_data toy codec (reads (bytes "sync_request")) (bytes "{}") bob fresh 9).0
    ≡ none
unfolding validate_code
request_passes = refl

chat_passes : (validate_envelope_data toy codec (reads []) (bytes "{}") bob fresh 9).0 ≡ none
unfolding validate_code
chat_passes = refl

-- Nobody forwards a packet under another name.
spoofed :
    (validate_envelope_data toy codec (reads (bytes "sync_request")) (bytes "{}") alice fresh 9).0
    ≡ some (bytes "sync request from_peer mismatch")
unfolding validate_code
spoofed = refl

validate_signed_message_iff_example :
    (validate_signed_message toy codec (some signed) fresh bob ≡ (none, fresh))
    ↔ IsAcceptable toy codec fresh signed
validate_signed_message_iff_example = validate_signed_message_iff toy codec signed fresh bob

validate_signed_message_blames_example :
    (validate_signed_message toy codec (some plain) fresh bob ≡ (none, fresh))
    ⊎ ((error : Bytes) × ((validate_signed_message toy codec (some plain) fresh bob).0 ≡ some error)
        × CountsOne toy codec fresh
            (validate_signed_message toy codec (some plain) fresh bob).1
            (accused toy codec (some plain) bob)
            alice)
validate_signed_message_blames_example =
    validate_signed_message_blames toy codec (some plain) fresh bob alice

signed_message_accepted_example :
    validate_signed_message toy codec (some signed) fresh bob ≡ (none, fresh)
signed_message_accepted_example =
    signed_message_accepted toy codec toy-IsSound alice (bytes "m1") alice (bytes "hi") [] false
      clock [] false node (bytes "hi") (bytes "02") fresh bob made marshalled signs (ground arith)
      (ground arith) (ground arith) (omega arith) alice_clocked alice_trusted

accepted_response_example :
    IsBound toy bob packet
    × All
        (IsGood toy codec
          (validate_envelope_data toy codec
            (reads (bytes "sync_response"))
            (bytes "{}")
            bob
            fresh
            9).1)
        packet.messages
accepted_response_example =
    accepted_response toy codec (reads (bytes "sync_response")) (bytes "{}") bob fresh 9 packet refl
      refl response_passes

-- A tracker that has `alice` in quarantine.
abbrev wary : TrustTracker
wary = record_reject (record_reject (record_reject new_trust_tracker alice []) alice []) alice []

wary_of_alice : is_quarantined wary alice ≡ true
unfolding validate_code
wary_of_alice = refl

wary_trusts_bob : is_quarantined wary bob ≡ false
unfolding validate_code
wary_trusts_bob = refl

bob_uncounted : at wary.invalid bob ≡ 0
unfolding validate_code
bob_uncounted = refl

quarantine_spreads_example :
    quarantined toy codec
      (validate_signed_message toy codec
        (some signed)
        (validate_signed_message toy codec
          (some plain)
          (validate_signed_message toy codec (some signed) (some wary) bob).1
          bob).1
        bob).1
      bob
    ≡ true
unfolding new_message
quarantine_spreads_example =
    quarantine_spreads toy codec wary signed plain signed bob (ground arith) (ground arith)
      bob_uncounted wary_trusts_bob wary_of_alice wary_of_alice wary_of_alice

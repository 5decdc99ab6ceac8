-- ===== src/Types.antt =====
-- internal/types/message.go: the chat message that peers sign and exchange. A nil map and an empty
-- map are one value here: they read alike, and no test of the code tells them apart.
use distributed_multi_agent.Base.{
  List, [], Bool, Bytes, bytes, GoMap, ℕ, Result, ok, ◌>>=◌, wrap, hex_encode,
}
use distributed_multi_agent.Clock.{copy}

pub record Message : Type 0 where
  pub id : Bytes
  pub sender_id : Bytes
  pub sender_name : Bytes
  pub content : Bytes
  pub mentions : List Bytes
  pub mention_all : Bool
  pub vector_clock : GoMap ℕ
  pub prev_hash : Bytes
  pub signature : Bytes
  pub is_ai : Bool

-- `NewMessage`; `id` is the text of the fresh UUID.
unfoldable pub new_message :
    Bytes → Bytes → Bytes → Bytes → List Bytes → Bool → GoMap ℕ → Bytes → Bool → Message
new_message id sender_id sender_name content mentions mention_all vc prev_hash is_ai = record {
  id = id;
  sender_id = sender_id;
  sender_name = sender_name;
  content = content;
  mentions = mentions;
  mention_all = mention_all;
  vector_clock = copy vc;
  prev_hash = prev_hash;
  signature = [];
  is_ai = is_ai;
}

-- The anonymous struct that `SignableBytes` marshals: every field but the signature.
pub record Signable : Type 0 where
  pub id : Bytes
  pub sender_id : Bytes
  pub sender_name : Bytes
  pub content : Bytes
  pub mentions : List Bytes
  pub mention_all : Bool
  pub vector_clock : GoMap ℕ
  pub prev_hash : Bytes
  pub is_ai : Bool

-- What the code calls of `encoding/json` and `crypto/sha256` to encode and to digest a message.
pub record Codec : Type 0 where
  pub marshal : Signable → Result Bytes
  pub sha256 : Bytes → Bytes

unfoldable pub signable : Message → Signable
signable m = record {
  id = m.id;
  sender_id = m.sender_id;
  sender_name = m.sender_name;
  content = m.content;
  mentions = m.mentions;
  mention_all = m.mention_all;
  vector_clock = m.vector_clock;
  prev_hash = m.prev_hash;
  is_ai = m.is_ai;
}

module _ (c : Codec) where
  unfoldable pub signable_bytes : Message → Result Bytes
  signable_bytes m = c.marshal (signable m)

  unfoldable pub hash : Message → Result Bytes
  hash m = do text ← wrap (bytes "hash message") (signable_bytes m); ok (hex_encode (c.sha256 text))

-- ===== src/Examples/Sample.antt =====
-- Clocks, messages and ledgers that the examples share.
use distributed_multi_agent.Base.{
  ℕ, List, ◌-◌, ◌++◌, ◌+◌, ◌≡◌, [], ◌∷◌, map, Bool, true, false, ◌&&◌, ite, leb, if◌then◌else◌,
  arith, Bytes, bytes, Bytes-discrete, ℕ_discrete, GoMap, at, get, put, keys, has, include, delete,
  drop, take, flip, compare_bytes, sort_stable, sort_loop, insert_back, hex_encode, hex_decode,
  hex_digit, hex_value, hex_pair, decimal, decimal_digits,
}
use distributed_multi_agent.Chat.Queries.{
  all_ids, known_set, missing_from, recent, string_less, unknown,
}
use distributed_multi_agent.Chat.{
  accept, add_with_reason, chain_key, clone_message, comes_before, compare_messages, compare_ties,
  delete_ids, evict, forks, incr, new_ledger, record_message, regresses, sort_messages,
}
use distributed_multi_agent.Clock.{
  VectorClock, check, compare, copy, copy_keys, increment, merge, merge_keys, snapshot, sum,
  sum_keys, verdict,
}
use distributed_multi_agent.Crypto.{generate_identity, sign, verify_signature}
use distributed_multi_agent.Double.{nearest, round, round_at, seconds, ulp}
use distributed_multi_agent.Trust.{
  allow_rate, count_invalid, is_quarantined, known_peer, new_trust_tracker, over_threshold,
  record_reject, elapsed, refilled, refill, short_peer_id, spend, total_invalid, trust_stats,
}
use distributed_multi_agent.Types.{Message, new_message, signable, signable_bytes}
use distributed_multi_agent.Unicode.{Unicode}
use distributed_multi_agent.Validate.{
  and_then, peer_id_string, record_validation_reject, validate_chat, validate_control,
  validate_envelope_data, validate_messages, validate_signature, validate_signed_message,
  validate_sync_request, validate_sync_response, with_rate,
}

abbrev pub lower_byte : ℕ → ℕ
lower_byte c = if leb b'A' c && leb c b'Z' then c + 32 else c

abbrev pub upper_byte : ℕ → ℕ
upper_byte c = if leb b'a' c && leb c b'z' then c - 32 else c

-- The words between blanks, with the current word before the rest.
abbrev pub words_from : Bytes → Bytes → List Bytes
words_from word [] = ite (Bytes-discrete word []) [] (word ∷ [])
words_from word (c ∷ s) =
    let blank = leb c 32 in
    let rest = words_from (if blank then [] else word ++ (c ∷ [])) s in
    if blank then ite (Bytes-discrete word []) rest (word ∷ rest) else rest

abbrev pub ascii_lower : Bytes → Bytes
ascii_lower = map lower_byte

abbrev pub ascii_equal_fold : Bytes → Bytes → Bool
ascii_equal_fold a b = ite (Bytes-discrete (ascii_lower a) (ascii_lower b)) true false

pub ascii_comm : (a b : Bytes) → ascii_equal_fold a b ≡ ascii_equal_fold b a
ascii_comm a b = ground arith

-- Case folding of ASCII text.
abbrev pub ascii : Unicode
ascii = record {
  to_lower = ascii_lower;
  to_upper = map upper_byte;
  equal_fold = ascii_equal_fold;
  trim_space = λ s. s;
  fields = λ s. words_from [] s;
  quote = λ s. bytes "\"" ++ (s ++ bytes "\"");
  equal_fold_comm = ascii_comm;
}

abbrev pub alice : Bytes
alice = bytes "alice"

abbrev pub bob : Bytes
bob = bytes "bob"

abbrev pub carol : Bytes
carol = bytes "carol"

-- `carol` has sent one message, and `bob` none.
abbrev pub early : GoMap ℕ
early = (carol, 1) ∷ []

-- The clock of a reply by `alice`, who has seen `early`.
abbrev pub reply : GoMap ℕ
reply = (alice, 1) ∷ (carol, 1) ∷ []

-- A message of `bob`, who has seen neither.
abbrev pub apart : GoMap ℕ
apart = (bob, 1) ∷ []

abbrev pub early_clock : VectorClock
early_clock = record { clock = early }

abbrev pub chat : Bytes → Bytes → GoMap ℕ → Bytes → Message
chat id sender vc prev_hash = record {
  id = id;
  sender_id = sender;
  sender_name = sender;
  content = bytes "hi";
  mentions = [];
  mention_all = false;
  vector_clock = vc;
  prev_hash = prev_hash;
  signature = [];
  is_ai = false;
}

abbrev pub asked : Message
asked = chat (bytes "m1") carol early []

abbrev pub answered : Message
answered = chat (bytes "m2") alice reply []

abbrev pub unrelated : Message
unrelated = chat (bytes "m3") bob apart []

-- All that a run of the clocks computes with.
unfoldable pub clock_code : Unit {0}
unfolding compare check verdict increment merge merge_keys snapshot copy copy_keys sum sum_keys at
    get put keys Bytes-discrete ℕ_discrete
clock_code = tt

-- All that a run of the ledger computes with.
unfoldable pub chat_code : Unit {0}
unfolding clock_code add_with_reason accept record_message evict delete_ids regresses forks
    chain_key comes_before compare_messages compare_ties sort_messages sort_stable sort_loop
    insert_back clone_message new_ledger incr has include delete drop take flip compare_bytes recent
    missing_from known_set unknown all_ids string_less
chat_code = tt

-- All that a run of the trust tracker computes with.
unfoldable pub trust_code : Unit {0}
unfolding clock_code has include delete drop take incr new_trust_tracker short_peer_id
    over_threshold count_invalid known_peer record_reject is_quarantined elapsed refilled ulp
    nearest round_at round seconds refill spend allow_rate total_invalid trust_stats
trust_code = tt

-- All that a run of the validator computes with.
unfoldable pub validate_code : Unit {0}
unfolding trust_code generate_identity sign verify_signature new_message signable signable_bytes
    peer_id_string record_validation_reject validate_signature validate_signed_message with_rate
    validate_control validate_messages and_then validate_sync_request validate_sync_response
    validate_chat validate_envelope_data hex_encode hex_decode hex_digit hex_value hex_pair decimal
    decimal_digits
validate_code = tt

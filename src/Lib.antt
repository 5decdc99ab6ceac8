-- ===== src/Lib.antt =====
-- A chat room for people and AI personas on a peer-to-peer network: what a node accepts from the
-- network, what it stores, and how it orders and repairs what it stores.
--
-- A message is signed by its sender's key (internal/types/message.go, internal/crypto/identity.go),
-- published on a GossipSub topic, checked by the topic validator of every node that it reaches
-- (internal/p2p/validate.go) with the help of a tracker of rejects, quarantine and rates
-- (internal/p2p/trust.go), and stored in a ledger (internal/chat/ledger.go), which orders messages by
-- their vector clocks (internal/clock/vector.go) and answers the sync requests of other nodes.
--
-- Clock models internal/clock/vector.go: `increment`, `merge`, `snapshot`, `compare` and `sum` are
-- Increment, Merge, Snapshot, Compare and Sum. Types models internal/types/message.go: `new_message`,
-- `signable_bytes` and `hash` are NewMessage, SignableBytes and Hash. Chat and Chat/Queries model
-- internal/chat/ledger.go, a method of Ledger being the function of that name on the record Ledger:
-- `add_with_reason` is AddWithReason, `all_ids` is IDs, `has_id` is Has. Trust models
-- internal/p2p/trust.go, `trust_stats` being Stats, over the float64 arithmetic of Double. Crypto models internal/crypto/identity.go. Wire and
-- Room model the packet types and the read loop of internal/p2p/pubsub.go, `receive` being one turn of it. Validate models internal/p2p/validate.go: each case of
-- the switch in validateEnvelopeData is a function of its own, and the checks that the two sync cases
-- share stand once, in `validate_control`. Base has the helpers, among them Go maps, byte strings,
-- results with an error, and hexadecimal; Examples has small runs and the theorems at concrete inputs.
--
-- Mention models internal/types/mention.go. Batcher models internal/ai/batcher.go, which groups messages
-- for the AI: `buffer` is the first half of Add, `timer_flush` timerFlush, and `invoke_flush`
-- invokeFlush, which has a mutex of its own and is a step of its own. Memory models
-- internal/ai/memory.go, `remember` and `forget` being Add and Delete.
--
-- Trace models the topic validator of internal/p2p/pubsub.go and the traces that it writes for the
-- browser: `build_security_trace` is buildSecurityTrace, each case of its switch a function of its own, and
-- Trace/Reasons normalizeRejectReason.
--
-- Orchestrator models internal/ai/orchestrator.go, a persona that reads the batches of the batcher and
-- replies. History has its history and the order of it (`compare_chat_message`, `compact_history`),
-- Words the tests on texts (`mentions_name`, `clean_reply`, `strip_name_prefix`, `is_duplicate`), Score
-- the state and `should_respond`, Prompts the texts for the language model, Ollama the requests to it
-- (`generate`, `calibrate_reply`), Recall the facts it finds (`extract_memories`), and Turns Process and
-- ForceReply. The lock is free while the model is asked, so that `process` and `force_reply` are the part
-- before, which gives the turn to be finished, and `finish` is the part after.
--
-- Node models internal/p2p/node.go: `handle_peer_found` is HandlePeerFound, `peer_count` PeerCount.
--
-- App models cmd/main.go, where these parts meet. App has the state (appState) with acceptMessage and
-- signAndPublish, App/Sync the goroutines that read sync packets and rejects (`handle_control`,
-- `note_reject`) and requestSync, App/Session init, resetRoom, resolveMentions and the messages of the
-- browser (`say` is the case chat), App/Demo signedDemoMessage and buildFloodDemoPayloads, App/Attacks
-- runDemoAttack with a function for each of its cases and the publishing as a parameter, and Browser
-- the envelopes that are written to the browser.
--
-- State is passed explicitly. A method that holds its object's mutex throughout is one step, so an
-- interleaving of goroutines is a list of steps. An error is its text.
--
-- - A Go map is an association list without an order that a theorem depends on; `keys` is what a
--   `range` visits. A nil map and an empty one are one value.
-- - Clock counters are 64-bit and wrap. The int counters of the ledger and the tracker are kept as
--   their 64-bit patterns, and a test of one reads it as a signed number.
-- - sort.SliceStable is the insertion sort by which it sorts blocks of up to 20 elements. Beyond that
--   it merges blocks, which comes to the same where the comparison is transitive on the elements,
--   since then there is only one stable order. The theorems on stored messages use only that the
--   result is a permutation; the one on `compact_history` names the sort.
-- - Times are nanoseconds, and the token counts of the rate limit are the float64 numbers of the
--   program, as whole multiples of 2 ^ -82, with each sum and quotient rounded to 53 bits. `round` takes
--   at most a hundred doublings to find the distance of two numbers, which a lemma shows to be enough
--   for all that a bucket of a nanosecond clock reaches.
-- - `decimal` runs on one more unit of fuel than the number, which has fewer digits than that. All
--   other recursion is on the structure of the data.
-- - libp2p, encoding/json, SHA-256 and the Unicode tables are parameters (the records Libp2p, Codec,
--   Decoder, Disk, Unicode), with documented laws where a theorem relies on them: a signature of a
--   generated key verifies, an Ed25519 peer ID holds its key, the text of a peer ID decodes to it,
--   and case folding is symmetric.
--
-- - `float64` in the orchestrator is a parameter too, the record Float, with the laws of IEEE 754 that
--   the theorems use (IsIeee). The language model is one (Ollama): any answer to any request.
-- - `find_name` and `strip_think` run on as much fuel as the text has bytes and one more; each round
--   uses up at least one byte, and each comes with a theorem that this is enough.
--
-- Not modelled: the hosts, topics and connections of internal/p2p/node.go and internal/p2p/pubsub.go,
-- which are libp2p's; of cmd/main.go the HTTP handlers and the installation of Ollama, which are input
-- and output, the texts of runDemoAttack's results, the throw-away peer that publishes its packets, and
-- the ticker of peer counts.
pub mod Base
pub mod Unicode
pub mod Clock
pub mod Types
pub mod Chat
pub mod Trust
pub mod Crypto
pub mod Double
pub mod Wire
pub mod Mention
pub mod Memory
pub mod Batcher
pub mod Validate
pub mod Browser
pub mod Node
pub mod App
pub mod Room
pub mod Trace
pub mod Orchestrator
mod Examples

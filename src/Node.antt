-- ===== src/Node.antt =====
-- internal/p2p/node.go: the peers that a node has found or was told to connect to.
pub mod Peers
use distributed_multi_agent.Base.{
  ℕ, List, [], ◌∷◌, ◌++◌, map, Bool, true, false, Option, none, some, if◌then◌else◌, length, Bytes,
  bytes, StringSet, include, Result, ok, err,
}
use distributed_multi_agent.Validate.{eqb}

-- `Host` by its peer ID, and the set of peers. A method holds the mutex while it uses the set.
pub record Node : Type 0 where
  pub host : Bytes
  pub peers : StringSet

-- What the code calls of libp2p and of its multiaddress package: the parsers of an address, and the
-- attempt to connect to a peer.
pub record Dialer : Type 0 where
  pub new_multiaddr : Bytes → Result Bytes
  pub addr_info : Bytes → Result Bytes
  pub connect : Bytes → Result (Unit {0})

-- The state of a node that `NewNode` returns.
unfoldable pub new_node : Bytes → Node
new_node host = record { host = host; peers = [] }

-- `HandlePeerFound`, and whether it starts to dial; the peer counts from then on, whether or not the
-- connection succeeds.
unfoldable pub handle_peer_found : Node → Bytes → Node × Bool
handle_peer_found n id =
    if eqb id n.host then (n, false) else (record n { peers = include n.peers id }, true)

unfoldable pub peer_count : Node → ℕ
peer_count n = length n.peers

-- `AddrStrings`, for the addresses of the host.
unfoldable pub addr_strings : Node → List Bytes → List Bytes
addr_strings n addrs = map (λ addr. addr ++ (bytes "/p2p/" ++ n.host)) addrs

-- `ConnectMultiaddr` from the test for the node itself on.
unfoldable pub connect_peer : Dialer → Node → Bytes → Node × Option Bytes
connect_peer d n id =
    if eqb id n.host then (n, some (bytes "cannot connect to self")) else elim (d.connect id) [
      | err e ↦ (n, some (bytes "connect peer: " ++ e))
      | ok done ↦ (record n { peers = include n.peers id }, none)
    ]

unfoldable pub connect_multiaddr : Dialer → Node → Bytes → Node × Option Bytes
connect_multiaddr d n raw = elim (d.new_multiaddr raw) [
  | err e ↦ (n, some (bytes "parse multiaddr: " ++ e))
  | ok addr ↦ elim (d.addr_info addr) [
    | err e ↦ (n, some (bytes "parse peer info: " ++ e))
    | ok id ↦ connect_peer d n id
  ]
]

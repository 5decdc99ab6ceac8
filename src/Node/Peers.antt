-- ===== src/Node/Peers.antt =====
-- internal/p2p/node.go: which peers a node counts.
use distributed_multi_agent.Base.{
  ◌≡◌, ◌≢◌, refl, ◌∙◌, inl, inr, List, [], ◌∷◌, Bool, false, ◌||◌, Option, none, some, arith,
  if◌then◌else◌, Bytes, has, has-include, get, ok, err, Result-cases,
}
use distributed_multi_agent.Node.{
  Dialer, Node, connect_multiaddr, connect_peer, handle_peer_found, new_node,
}
use distributed_multi_agent.Validate.{eqb}

-- A peer that is discovered, or an address that the node is told to connect to.
pub data Event : Type 0 where
  found : Bytes → Event
  dialled : Bytes → Event

module _ (d : Dialer) where
  unfoldable pub happen : Node → Event → Node
  happen n (found id) = (handle_peer_found n id).0
  happen n (dialled raw) = (connect_multiaddr d n raw).0

  unfoldable pub run : Node → List Event → Node
  run n [] = n
  run n (e ∷ es) = run (happen n e) es

  -- The peer that an event makes known, if any.
  unfoldable pub target : Bytes → Event → Option Bytes
  target host (found id) = if eqb id host then none else some id
  target host (dialled raw) = elim (d.new_multiaddr raw) [
    | err e ↦ none
    | ok addr ↦ elim (d.addr_info addr) [
      | err e ↦ none
      | ok id ↦
          if eqb id host then none else elim (d.connect id) [ err e ↦ none | ok done ↦ some id ]
    ]
  ]

  -- Whether some event makes the peer known.
  unfoldable pub is_target : Bytes → Bytes → List Event → Bool
  is_target host id [] = false
  is_target host id (e ∷ es) =
      elim (target host e) [ none ↦ false | some id' ↦ eqb id' id ] || is_target host id es

  host-happen : (n : Node) (e : Event) → (happen n e).host ≡ n.host
  unfolding happen handle_peer_found connect_multiaddr connect_peer
  host-happen n (found id) = ground arith
  host-happen n (dialled raw) = ground arith

  has-happen :
      (n : Node) (e : Event) (id : Bytes)
      → has (happen n e).peers id
        ≡ (has n.peers id || elim (target n.host e) [ none ↦ false | some id' ↦ eqb id' id ])
  unfolding happen handle_peer_found connect_multiaddr connect_peer target
  has-happen n (found x) id = ground (arith, has-include n.peers x id)
  has-happen n (dialled raw) id = elim (Result-cases (d.new_multiaddr raw)) [
    | inr (e, m) ↦ ground arith
    | inl (addr, m) ↦ elim (Result-cases (d.addr_info addr)) [
      | inr (e, i) ↦ ground arith
      | inl (x, i) ↦ ground (arith, has-include n.peers x id)
    ]
  ]

  has-run :
      (n : Node) (es : List Event) (id : Bytes)
      → has (run n es).peers id ≡ (has n.peers id || is_target n.host id es)
  unfolding run is_target
  has-run n [] id = ground arith
  has-run n (e ∷ es) id =
      ground (arith, has-run (happen n e) es id, has-happen n e id, host-happen n e)

  -- A node knows exactly the peers, itself excepted, that have been discovered or to which it was told
  -- to connect and could, whatever the order of these events.
  pub known_peers :
      (host : Bytes) (es : List Event) (id : Bytes)
      → has (run (new_node host) es).peers id ≡ is_target host id es
  unfolding new_node has is_target get
  known_peers host es id = has-run (new_node host) es id

  target_other : (host : Bytes) (e : Event) → target host e ≢ some host
  unfolding target
  target_other host (found id) = λ h. ground arith
  target_other host (dialled raw) = λ h. ground arith

  is_target_self : (host : Bytes) (es : List Event) → is_target host host es ≡ false
  unfolding is_target
  is_target_self host [] = refl
  is_target_self host (e ∷ es) = ground (arith, is_target_self host es, target_other host e)

  -- A node never counts itself among its peers.
  pub self_unknown :
      (host : Bytes) (es : List Event) → has (run (new_node host) es).peers host ≡ false
  self_unknown host es = known_peers host es host ∙ is_target_self host es

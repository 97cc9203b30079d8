-- ===== src/P2p/Peers.antt =====
-- The peers that the loop knows: whom it announced, and who is left when peers expire.
pub mod Replies
pub mod Loop
use mesh_pad.Base.{
  ◌≡◌, refl, ap, ◌∙◌, String, Bool, true, not, ◌||◌, ◌&&◌, Option, none, some, List, [], ◌∷◌, ◌++◌,
  arith, Bool-cases, inl, inr, string_key, if◌then◌else◌, is_some, ◌==◌,
}
use text.Mathlib.TextEquality.{eq_iff}
use mesh_pad.External.Json.{Json}
use mesh_pad.External.Libp2p.{Libp2p}
use mesh_pad.HashMap
use mesh_pad.HashMap.{HashMap}
use mesh_pad.HashMap.Laws.{get-insert}
use mesh_pad.HashMap.Distinct.{Distinct, insert-Distinct, retain-Distinct, get-retain, kept}
use mesh_pad.P2p.{P2pConfig, Node}
use mesh_pad.P2p.Respond.{contains, keep_ids, discovery, meet, expire, expire_all}

contains-keep_ids :
    (p : String → Bool) (ids : List String) (id : String)
    → contains (keep_ids p ids) id ≡ (contains ids id && p id)
unfolding contains keep_ids
contains-keep_ids p [] id = refl
contains-keep_ids p (i ∷ ids) id = elim (Bool-cases (string_key.same i id)) [
  | inl same ↦
      let e : i ≡ id = (eq_iff i id).0 same in
      rw same (ground (arith, contains-keep_ids p ids id, ap p e))
  | inr other ↦ rw other (ground (arith, contains-keep_ids p ids id))
]

module _ ⦃json : Json⦄ ⦃libp2p : Libp2p json.Value⦄ where
  open libp2p use {PeerId, peer_key, Multiaddr}

  -- The peer that a MeshPad id stands for.
  abbrev pub peer_of : Node → String → Option PeerId
  peer_of node id = HashMap.get ⦃e = string_key⦄ node.meshpad_peers id

  -- The announced ids are those of the known peers.
  pub record IsAnnounced (node : Node) : Type 0 where
    pub distinct : Distinct ⦃e = string_key⦄ node.meshpad_peers
    pub same_ids : (id : String) → contains node.announced id ≡ is_some (peer_of node id)

  pub peer_of-meet :
      (config : P2pConfig) (node : Node) (peer : PeerId) (id name j : String)
      → peer_of (meet config node peer id name) j ≡ (if id == j then some peer else peer_of node j)
  unfolding meet
  peer_of-meet config node peer id name j = elim (Bool-cases (contains node.announced id)) [
    | inl old ↦ rw old (get-insert ⦃e = string_key⦄ node.meshpad_peers id j peer)
    | inr new ↦ rw new (get-insert ⦃e = string_key⦄ node.meshpad_peers id j peer)
  ]

  meet-announced :
      (config : P2pConfig) (node : Node) (peer : PeerId) (id name j : String)
      → contains (meet config node peer id name).announced j
        ≡ (id == j || contains node.announced j)
  unfolding meet contains
  meet-announced config node peer id name j = ground (arith, eq_iff id j)

  meet-Distinct :
      (config : P2pConfig) (node : Node) (peer : PeerId) (id name : String)
      → IsAnnounced node
      → Distinct ⦃e = string_key⦄ (meet config node peer id name).meshpad_peers
  unfolding meet
  meet-Distinct config node peer id name h = elim (Bool-cases (contains node.announced id)) [
    | inl old ↦ rw old (insert-Distinct ⦃e = string_key⦄ node.meshpad_peers id peer h.distinct)
    | inr new ↦ rw new (insert-Distinct ⦃e = string_key⦄ node.meshpad_peers id peer h.distinct)
  ]

  -- For a node whose announced ids are those of its known peers, each id at most once: a peer that
  -- gives its id is known under it from then on, other ids stand for whom they stood for, and the
  -- announced ids are those of the known peers again. An event goes out exactly when the id was
  -- not known before.
  pub meet_lem :
      (config : P2pConfig) (node : Node) (peer : PeerId) (id name : String)
      → IsAnnounced node
      → let node' = meet config node peer id name in
        ((j : String) → peer_of node' j ≡ (if id == j then some peer else peer_of node j))
        × IsAnnounced node'
        × (node'.events ≡ (
            if is_some (peer_of node id)
            then node.events
            else node.events ++ discovery config node peer id name ∷ []))
  unfolding meet
  meet_lem config node peer id name h = (
    peer_of-meet config node peer id name,
    record {
      distinct = meet-Distinct config node peer id name h;
      same_ids = λ j. ground (
        arith,
        meet-announced config node peer id name j,
        peer_of-meet config node peer id name j,
        h.same_ids j,
      );
    },
    ground (arith, h.same_ids id),
  )

  -- Whether a known peer is another than the one that expired.
  abbrev pub other_than : PeerId → PeerId → Bool
  other_than peer pid = not (peer_key.same pid peer)

  peer_of-expire :
      (node : Node) (peer : PeerId) (id : String)
      → IsAnnounced node
      → peer_of (expire node peer) id ≡ kept (other_than peer) (peer_of node id)
  unfolding expire
  peer_of-expire node peer id h =
      get-retain ⦃e = string_key⦄ (λ _ pid. other_than peer pid) node.meshpad_peers id h.distinct

  contains-expire :
      (node : Node) (peer : PeerId) (id : String)
      → contains (expire node peer).announced id
        ≡ (contains node.announced id && is_some (peer_of (expire node peer) id))
  unfolding expire
  contains-expire node peer id = contains-keep_ids _ node.announced id

  expire-Distinct :
      (node : Node) (peer : PeerId)
      → IsAnnounced node
      → Distinct ⦃e = string_key⦄ (expire node peer).meshpad_peers
  unfolding expire
  expire-Distinct node peer h =
      retain-Distinct ⦃e = string_key⦄ (λ _ pid. other_than peer pid) node.meshpad_peers h.distinct

  -- An expired peer is forgotten under every id, with its announcements; the others stay.
  pub expire_lem :
      (node : Node) (peer : PeerId)
      → IsAnnounced node
      → ((id : String) → peer_of (expire node peer) id ≡ kept (other_than peer) (peer_of node id))
        × IsAnnounced (expire node peer)
  expire_lem node peer h = (
    λ id. peer_of-expire node peer id h,
    record {
      distinct = expire-Distinct node peer h;
      same_ids = λ id.
          ground
            (arith, contains-expire node peer id, peer_of-expire node peer id h, h.same_ids id);
    },
  )

  abbrev pub unlisted : List (PeerId × Multiaddr) → PeerId → Bool
  unlisted [] pid = true
  unlisted ((peer, _) ∷ rest) pid = other_than peer pid && unlisted rest pid

  kept-kept :
      (peer : PeerId) (rest : List (PeerId × Multiaddr)) (addr : Multiaddr) (o : Option PeerId)
      → kept (unlisted rest) (kept (other_than peer) o) ≡ kept (unlisted ((peer, addr) ∷ rest)) o
  kept-kept peer rest addr none = refl
  kept-kept peer rest addr (some pid) = ground arith

  -- For a node whose announced ids are those of its known peers, each id at most once: after the
  -- peers of a list have expired, an id stands for the peer that it stood for, unless that peer is
  -- in the list, and then for none, and the announced ids are those of the peers that are left.
  pub expire_all_lem :
      (list : List (PeerId × Multiaddr)) (node : Node)
      → IsAnnounced node
      → ((id : String) → peer_of (expire_all node list) id ≡ kept (unlisted list) (peer_of node id))
        × IsAnnounced (expire_all node list)
  unfolding expire_all
  expire_all_lem [] node h = (λ id. kept_all (peer_of node id), h)
    where
      kept_all : (o : Option PeerId) → o ≡ kept (unlisted []) o
      kept_all none = refl
      kept_all (some pid) = refl
  expire_all_lem ((peer, addr) ∷ rest) node h =
      let (left, h') = expire_lem node peer h in
      let (left', h'') = expire_all_lem rest (expire node peer) h' in
      (
        λ id.
            left' id
            ∙ ap (kept (unlisted rest)) (left id)
            ∙ kept-kept peer rest addr (peer_of node id),
        h'',
      )

-- ===== src/P2p/Respond.antt =====
-- The part of handle_swarm_event that meets peers, and that answers their wire requests.
use mesh_pad.Base.{
  String, Bool, false, not, Option, none, some, List, [], ◌∷◌, ◌++◌, ◌==◌, string_key, ◌||◌,
  if◌then◌else◌,
}
use mesh_pad.Base.Text.{concat}
use mesh_pad.Base.Text.Decimal.{decimal}
use mesh_pad.External.Json.{Json}
use mesh_pad.External.Base64.{Base64}
use mesh_pad.External.Libp2p.{Libp2p, Protocol, ip4, ip6, other}
use mesh_pad.HashMap
use mesh_pad.WireProtocol.{WireRequest, WireResponse}
use mesh_pad.WireStore
use mesh_pad.WireBatch.{import_batch, export_batch}
use mesh_pad.Events.{SidecarEvent, peer_discovered}
use mesh_pad.P2p.{P2pConfig, Node}

-- HashSet::contains
unfoldable pub contains : List String → String → Bool
contains [] id = false
contains (i ∷ ids) id = i == id || contains ids id

-- HashSet::retain
unfoldable pub keep_ids : (String → Bool) → List String → List String
keep_ids p [] = []
keep_ids p (i ∷ ids) = let rest = keep_ids p ids in if p i then i ∷ rest else rest

-- the inner loop of remote_ip_for_peer
unfoldable pub first_ip : List Protocol → Option String
first_ip [] = none
first_ip (ip4 ip ∷ rest) = some ip
first_ip (ip6 ip ∷ rest) = some ip
first_ip (other ∷ rest) = first_ip rest

-- Iterator::find_map
abbrev pub or_next : Option String → Option String → Option String
or_next none next = next
or_next (some ip) next = some ip

-- `format!("http://{host}:{}/", config.default_lan_http_port)`
unfoldable pub wire_base_of : P2pConfig → String → String
unfolding decimal
wire_base_of config host =
    concat "http://" (concat host (concat ":" (concat (decimal config.default_lan_http_port) "/")))

abbrev pub map_host : (String → String) → Option String → Option String
map_host f none = none
map_host f (some host) = some (f host)

module _ ⦃json : Json⦄ ⦃libp2p : Libp2p json.Value⦄ where
  open json use {Value}
  open libp2p use {
    PeerId, peer_key, Multiaddr, Channel, protocols, connected_addresses, dial, with_p2p,
    send_response,
  }

  unfoldable pub find_ip : List Multiaddr → Option String
  find_ip [] = none
  find_ip (addr ∷ rest) = or_next (first_ip (protocols addr)) (find_ip rest)

  unfoldable pub remote_ip_for_peer : Node → PeerId → Option String
  unfolding find_ip first_ip
  remote_ip_for_peer node peer = find_ip (connected_addresses node.swarm peer)

  -- The event of a peer that is new, to which its address and the configured ports are put.
  unfoldable pub discovery : P2pConfig → Node → PeerId → String → String → SidecarEvent
  unfolding remote_ip_for_peer wire_base_of
  discovery config node peer meshpad_id display_name =
      let lan_host = remote_ip_for_peer node peer in
      peer_discovered meshpad_id display_name lan_host (some config.default_lan_http_port)
        (some config.default_tls_port) (map_host (wire_base_of config) lan_host)

  -- A peer gives its MeshPad id, by its agent string or by a hello.
  unfoldable pub meet : P2pConfig → Node → PeerId → String → String → Node
  unfolding contains
  meet config node peer meshpad_id display_name =
      let met = record node { meshpad_peers = HashMap.insert node.meshpad_peers meshpad_id peer } in
      if contains node.announced meshpad_id then met else record met {
        announced = meshpad_id ∷ node.announced;
        events = node.events ++ discovery config node peer meshpad_id display_name ∷ [];
      }

  -- One round of the loop over expired peers.
  unfoldable pub expire : Node → PeerId → Node
  unfolding keep_ids
  expire node peer =
      let peers = HashMap.retain (λ _ pid. not (peer_key.same pid peer)) node.meshpad_peers in
      record node {
        meshpad_peers = peers;
        announced = keep_ids (λ id. HashMap.contains_key peers id) node.announced;
      }

  unfoldable pub expire_all : Node → List (PeerId × Multiaddr) → Node
  expire_all node [] = node
  expire_all node ((peer, _) ∷ rest) = expire_all (expire node peer) rest

  unfoldable pub dial_all : Node → List (PeerId × Multiaddr) → Node
  dial_all node [] = node
  dial_all node ((peer, addr) ∷ rest) =
      dial_all (record node { swarm = dial node.swarm (with_p2p addr peer) }) rest

  unfoldable pub answer_request : Node → Channel → WireResponse Value → Node
  answer_request node channel response = record node {
    swarm = send_response node.swarm channel response;
  }

module _ ⦃json : Json⦄ ⦃base64 : Base64⦄ ⦃libp2p : Libp2p json.Value⦄ where
  open json use {Value}
  open libp2p use {PeerId}

  -- The response to a wire request of a peer, and the node after it.
  unfoldable pub handle_request :
      P2pConfig → Node → PeerId → WireRequest Value → WireResponse Value × Node
  handle_request config node peer (WireRequest.hello meshpad_id display_name) =
      (WireResponse.hello_ack, meet config node peer meshpad_id display_name)
  handle_request config node peer WireRequest.get_catalog =
      (WireResponse.catalog (WireStore.catalog_heads node.wire), node)
  handle_request config node peer (WireRequest.pull note_ids) =
      (WireResponse.pull (WireStore.pull node.wire note_ids), node)
  handle_request config node peer (WireRequest.push snapshot) =
      (WireResponse.push_ack, record node { wire = (WireStore.upsert node.wire snapshot).1 })
  handle_request config node peer WireRequest.get_batch =
      (WireResponse.batch (export_batch node.wire node.attachments), node)
  handle_request config node peer (WireRequest.push_batch batch) =
      let r = import_batch batch node.wire node.attachments in
      (WireResponse.batch_ack r.count, record node { wire = r.wire; attachments = r.attachments })

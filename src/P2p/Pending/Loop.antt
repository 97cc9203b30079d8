-- ===== src/P2p/Pending/Loop.antt =====
-- Swarm events keep the pending maps consistent.
use mesh_pad.Base.{
  String, Option, none, some, List, [], ◌∷◌, arith, Bool-cases, inl, inr, string_key,
}
use mesh_pad.External.Json.{Json}
use mesh_pad.External.Base64.{Base64}
use mesh_pad.External.Libp2p.{Libp2p}
use mesh_pad.HashMap
use mesh_pad.WireProtocol.{WireRequest, WireResponse}
use mesh_pad.P2p.{
  P2pConfig, PullCtx, PushCtx, BatchSyncCtx, SwarmEvent, mdns_discovered, mdns_expired,
  identify_received, wire_request, wire_response, outbound_failure, Node,
}
use mesh_pad.P2p.Agent.{parse_meshpad_agent}
use mesh_pad.P2p.Replies.{id_key}
use mesh_pad.P2p.Respond.{
  contains, meet, expire, expire_all, dial_all, handle_request, answer_request,
}
use mesh_pad.P2p.Loop.{identified, handle_response, failed, handle_failure, handle_swarm_event}
use mesh_pad.P2p.Pending.{
  Tracked-keeps, IsConsistent, Apart-remove_pull, Apart-remove_push, Apart-remove_batch_sync,
}
use mesh_pad.P2p.Pending.Replies.{
  pulls_taken, pushes_taken, batch_syncs_taken, handle_pull_response-IsConsistent,
  handle_push_response-IsConsistent, handle_batch_sync_response-IsConsistent,
}

module _ ⦃json : Json⦄ ⦃libp2p : Libp2p json.Value⦄ where
  open json use {Value}
  open libp2p use {PeerId, RequestId, Channel, Multiaddr, dial-keeps, send_response-keeps, with_p2p}

  pub meet-IsConsistent :
      (config : P2pConfig) (node : Node) (peer : PeerId) (id name : String)
      → IsConsistent node
      → IsConsistent (meet config node peer id name)
  unfolding meet
  meet-IsConsistent config node peer id name c = elim (Bool-cases (contains node.announced id)) [
    | inl old ↦ rw old (record {
      pulls = c.pulls;
      pushes = c.pushes;
      batch_syncs = c.batch_syncs;
      apart = c.apart;
    })
    | inr new ↦ rw new (record {
      pulls = c.pulls;
      pushes = c.pushes;
      batch_syncs = c.batch_syncs;
      apart = c.apart;
    })
  ]

  identified-IsConsistent :
      (config : P2pConfig) (node : Node) (peer : PeerId) (parsed : Option (String × String))
      → IsConsistent node
      → IsConsistent (identified config node peer parsed)
  identified-IsConsistent config node peer none c = c
  identified-IsConsistent config node peer (some (id, name)) c =
      meet-IsConsistent config node peer id name c

  expire-IsConsistent :
      (node : Node) (peer : PeerId) → IsConsistent node → IsConsistent (expire node peer)
  unfolding expire
  expire-IsConsistent node peer c = record {
    pulls = c.pulls;
    pushes = c.pushes;
    batch_syncs = c.batch_syncs;
    apart = c.apart;
  }

  expire_all-IsConsistent :
      (list : List (PeerId × Multiaddr)) (node : Node)
      → IsConsistent node
      → IsConsistent (expire_all node list)
  unfolding expire_all
  expire_all-IsConsistent [] node c = c
  expire_all-IsConsistent ((peer, addr) ∷ rest) node c =
      expire_all-IsConsistent rest (expire node peer) (expire-IsConsistent node peer c)

  dial_all-IsConsistent :
      (list : List (PeerId × Multiaddr)) (node : Node)
      → IsConsistent node
      → IsConsistent (dial_all node list)
  unfolding dial_all
  dial_all-IsConsistent [] node c = c
  dial_all-IsConsistent ((peer, addr) ∷ rest) node c =
      let keeps = dial-keeps node.swarm (with_p2p addr peer) in
      dial_all-IsConsistent rest _ (record {
        pulls = Tracked-keeps keeps c.pulls;
        pushes = Tracked-keeps keeps c.pushes;
        batch_syncs = Tracked-keeps keeps c.batch_syncs;
        apart = c.apart;
      })

  answer_request-IsConsistent :
      (node : Node) (channel : Channel) (response : WireResponse Value)
      → IsConsistent node
      → IsConsistent (answer_request node channel response)
  unfolding answer_request
  answer_request-IsConsistent node channel response c =
      let keeps = send_response-keeps node.swarm channel response in
      record {
        pulls = Tracked-keeps keeps c.pulls;
        pushes = Tracked-keeps keeps c.pushes;
        batch_syncs = Tracked-keeps keeps c.batch_syncs;
        apart = c.apart;
      }

module _ ⦃json : Json⦄ ⦃base64 : Base64⦄ ⦃libp2p : Libp2p json.Value⦄ where
  open json use {Value}
  open libp2p use {PeerId, RequestId}

  handle_request-IsConsistent :
      (config : P2pConfig) (node : Node) (peer : PeerId) (request : WireRequest Value)
      → IsConsistent node
      → IsConsistent (handle_request config node peer request).1
  unfolding handle_request
  handle_request-IsConsistent config node peer (WireRequest.hello id name) c =
      meet-IsConsistent config node peer id name c
  handle_request-IsConsistent config node peer (WireRequest.push snapshot) c = record {
    pulls = c.pulls;
    pushes = c.pushes;
    batch_syncs = c.batch_syncs;
    apart = c.apart;
  }
  handle_request-IsConsistent config node peer (WireRequest.push_batch batch) c = record {
    pulls = c.pulls;
    pushes = c.pushes;
    batch_syncs = c.batch_syncs;
    apart = c.apart;
  }
  handle_request-IsConsistent config node peer _ c = c

  module _ (node : Node) (c : IsConsistent node) where
    handle_response-IsConsistent :
        (id : RequestId) (response : WireResponse Value)
        → IsConsistent (handle_response node id response)
    unfolding handle_response
    handle_response-IsConsistent id response = ground (
      arith,
      c,
      handle_pull_response-IsConsistent node c id response,
      handle_push_response-IsConsistent node c id response,
      handle_batch_sync_response-IsConsistent node c id response,
    )

    failed-IsConsistent :
        (id : RequestId) (error : String) (pull : Option PullCtx) (push : Option PushCtx)
        (batch : Option BatchSyncCtx)
        → IsConsistent (failed node id error pull push batch)
    failed-IsConsistent id error (some ctx) push batch = record {
      pulls = pulls_taken node c id;
      pushes = c.pushes;
      batch_syncs = c.batch_syncs;
      apart = Apart-remove_pull c.apart id;
    }
    failed-IsConsistent id error none (some ctx) batch = record {
      pulls = c.pulls;
      pushes = pushes_taken node c id;
      batch_syncs = c.batch_syncs;
      apart = Apart-remove_push c.apart id;
    }
    failed-IsConsistent id error none none (some ctx) = record {
      pulls = c.pulls;
      pushes = c.pushes;
      batch_syncs = batch_syncs_taken node c id;
      apart = Apart-remove_batch_sync c.apart id;
    }
    failed-IsConsistent id error none none none = c

    -- For a node whose three maps of pending requests hold an id at most once, in at most one of them,
    -- and only ids that the swarm has given out, the node after any swarm event is such a node again.
    pub handle_swarm_event-IsConsistent :
        (config : P2pConfig) (e : SwarmEvent) → IsConsistent (handle_swarm_event config node e)
    unfolding handle_swarm_event handle_failure
    handle_swarm_event-IsConsistent config (mdns_discovered list) =
        dial_all-IsConsistent list node c
    handle_swarm_event-IsConsistent config (mdns_expired list) = expire_all-IsConsistent list node c
    handle_swarm_event-IsConsistent config (identify_received peer agent) =
        identified-IsConsistent config node peer (parse_meshpad_agent agent) c
    handle_swarm_event-IsConsistent config (wire_request peer request channel) =
        answer_request-IsConsistent (handle_request config node peer request).1 channel
          (handle_request config node peer request).0
          (handle_request-IsConsistent config node peer request c)
    handle_swarm_event-IsConsistent config (wire_response id response) =
        handle_response-IsConsistent id response
    handle_swarm_event-IsConsistent config (outbound_failure id error) =
        failed-IsConsistent id error (HashMap.get node.pulls id) (HashMap.get node.pushes id)
          (HashMap.get node.batch_syncs id)
    handle_swarm_event-IsConsistent config _ = c

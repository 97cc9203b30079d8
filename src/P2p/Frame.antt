-- ===== src/P2p/Frame.antt =====
-- What leaves the map of the batch syncs as it is.
pub mod Waits
use mesh_pad.Base.{
  ◌≡◌, ◌==◌, refl, subst, sym, ◌∙◌, Bool, true, false, Option, none, some, List, [], ◌∷◌,
  Bool-cases, Option-cases, inl, inr, All, String, string_key, arith, HashKey, add_u32,
  if◌then◌else◌,
}
use mesh_pad.External.Json.{Json}
use mesh_pad.External.Base64.{Base64}
use mesh_pad.External.Libp2p.{Libp2p}
use mesh_pad.HashMap
use mesh_pad.HashMap.{HashMap}
use mesh_pad.HashMap.Laws.{get-insert, get-remove}
use mesh_pad.WireProtocol.{WireRequest, WireResponse}
use mesh_pad.WireStore.{all_snapshots}
use mesh_pad.WireStore.Catalog.{ids_of_heads}
use mesh_pad.P2p.{
  Sender, P2pCommand, stop, pull_from_meshpad_peer, push_to_meshpad_peer,
  batch_sync_with_meshpad_peer, P2pConfig, PullCtx, PushCtx, BatchSyncCtx, PullStep, BatchSyncStep,
  awaiting_catalog, awaiting_notes, awaiting_remote_batch, awaiting_push_ack, SwarmEvent,
  mdns_discovered, mdns_expired, identify_received, wire_request, wire_response, outbound_failure,
  new_listen_addr, other, Node,
}
use mesh_pad.P2p.Agent.{parse_meshpad_agent}
use mesh_pad.P2p.Respond.{
  contains, meet, expire, expire_all, dial_all, handle_request, answer_request,
}
use mesh_pad.P2p.Replies.{
  id_key, pull_ids, pull_step, pull_found, handle_pull_response, push_next, push_step, push_found,
  handle_push_response, batch_sync_step, batch_sync_found, handle_batch_sync_response,
}
use mesh_pad.P2p.Loop.{
  Input, command, closed, event, run_swarm, handle_command, handle_swarm_event, handle_response,
  handle_failure, failed, identified, start_pull, start_push, push_first, start_batch_sync,
}
use mesh_pad.P2p.Pending.{IsConsistent, get-fresh}
use mesh_pad.P2p.Pending.Loop.{handle_swarm_event-IsConsistent}
use mesh_pad.P2p.Pending.Commands.{handle_command-IsConsistent}

module _ ⦃json : Json⦄ ⦃libp2p : Libp2p json.Value⦄ where
  open libp2p use {PeerId, RequestId, Multiaddr}

  pub batch_syncs-dial_all :
      (list : List (PeerId × Multiaddr)) (node : Node)
      → (dial_all node list).batch_syncs ≡ node.batch_syncs
  unfolding dial_all
  batch_syncs-dial_all [] node = refl
  batch_syncs-dial_all ((peer, addr) ∷ rest) node = batch_syncs-dial_all rest _

  pub batch_syncs-expire_all :
      (list : List (PeerId × Multiaddr)) (node : Node)
      → (expire_all node list).batch_syncs ≡ node.batch_syncs
  unfolding expire_all expire
  batch_syncs-expire_all [] node = refl
  batch_syncs-expire_all ((peer, addr) ∷ rest) node = batch_syncs-expire_all rest (expire node peer)

  pub batch_syncs-meet :
      (config : P2pConfig) (node : Node) (peer : PeerId) (id name : String)
      → (meet config node peer id name).batch_syncs ≡ node.batch_syncs
  unfolding meet
  batch_syncs-meet config node peer id name = elim (Bool-cases (contains node.announced id)) [
    | inl old ↦ rw old refl
    | inr new ↦ rw new refl
  ]

  pub batch_syncs-identified :
      (config : P2pConfig) (node : Node) (peer : PeerId) (agent : Option (String × String))
      → (identified config node peer agent).batch_syncs ≡ node.batch_syncs
  batch_syncs-identified config node peer none = refl
  batch_syncs-identified config node peer (some (id, name)) =
      batch_syncs-meet config node peer id name

module _ ⦃json : Json⦄ ⦃base64 : Base64⦄ ⦃libp2p : Libp2p json.Value⦄ where
  open json use {Value}
  open libp2p use {PeerId, RequestId, send_request}

  pub batch_syncs-handle_request :
      (config : P2pConfig) (node : Node) (peer : PeerId) (request : WireRequest Value)
      → (handle_request config node peer request).1.batch_syncs ≡ node.batch_syncs
  unfolding handle_request
  batch_syncs-handle_request config node peer (WireRequest.hello id name) =
      batch_syncs-meet config node peer id name
  batch_syncs-handle_request config node peer WireRequest.get_catalog = refl
  batch_syncs-handle_request config node peer (WireRequest.pull ids) = refl
  batch_syncs-handle_request config node peer (WireRequest.push v) = refl
  batch_syncs-handle_request config node peer WireRequest.get_batch = refl
  batch_syncs-handle_request config node peer (WireRequest.push_batch b) = refl

  pub batch_syncs-pull_ids :
      (node : Node) (id : RequestId) (ctx : PullCtx) (ids : List String)
      → (pull_ids node id ctx ids).batch_syncs ≡ node.batch_syncs
  batch_syncs-pull_ids node id ctx [] = refl
  batch_syncs-pull_ids node id ctx (i ∷ ids) = refl

  pub batch_syncs-pull_step :
      (node : Node) (id : RequestId) (ctx : PullCtx) (step : PullStep) (r : WireResponse Value)
      → (pull_step node id ctx step r).batch_syncs ≡ node.batch_syncs
  batch_syncs-pull_step node id ctx awaiting_catalog (WireResponse.catalog heads) =
      batch_syncs-pull_ids node id ctx (ids_of_heads heads)
  batch_syncs-pull_step node id ctx awaiting_notes (WireResponse.pull notes) = refl
  batch_syncs-pull_step node id ctx _ (WireResponse.error message) = refl
  batch_syncs-pull_step node id ctx _ _ = refl

  pub batch_syncs-pull_found :
      (node : Node) (id : RequestId) (r : WireResponse Value) (found : Option PullCtx)
      → (pull_found node id r found).batch_syncs ≡ node.batch_syncs
  batch_syncs-pull_found node id r none = refl
  batch_syncs-pull_found node id r (some ctx) = batch_syncs-pull_step node id ctx ctx.step r

  pub batch_syncs-push_next :
      (node : Node) (ctx : PushCtx) (rest : List Value)
      → (push_next node ctx rest).batch_syncs ≡ node.batch_syncs
  batch_syncs-push_next node ctx [] = refl
  batch_syncs-push_next node ctx (v ∷ rest) = refl

  pub batch_syncs-push_found :
      (node : Node) (id : RequestId) (r : WireResponse Value) (found : Option PushCtx)
      → (push_found node id r found).batch_syncs ≡ node.batch_syncs
  batch_syncs-push_found node id r none = refl
  batch_syncs-push_found node id WireResponse.push_ack (some ctx) =
      batch_syncs-push_next _ (record ctx { pushed = add_u32 ctx.pushed 1 }) ctx.remaining
  batch_syncs-push_found node id _ (some ctx) = refl

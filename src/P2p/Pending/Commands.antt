-- ===== src/P2p/Pending/Commands.antt =====
-- Commands keep the pending maps consistent.
use mesh_pad.Base.{String, Option, none, some, List, [], ◌∷◌, string_key}
use mesh_pad.External.Json.{Json}
use mesh_pad.External.Base64.{Base64}
use mesh_pad.External.Libp2p.{Libp2p}
use mesh_pad.HashMap
use mesh_pad.WireProtocol.{WireRequest}
use mesh_pad.WireStore.{all_snapshots}
use mesh_pad.P2p.{
  Sender, P2pCommand, stop, pull_from_meshpad_peer, push_to_meshpad_peer,
  batch_sync_with_meshpad_peer, Node,
}
use mesh_pad.P2p.Replies.{id_key}
use mesh_pad.P2p.Loop.{start_pull, push_first, start_push, start_batch_sync, handle_command}
use mesh_pad.P2p.Pending.{
  Tracked-send_request, Tracked-insert, IsConsistent, Apart-insert_pull, Apart-insert_push,
  Apart-insert_batch_sync,
}

module _ ⦃json : Json⦄ ⦃base64 : Base64⦄ ⦃libp2p : Libp2p json.Value⦄ where
  open json use {Value}
  open libp2p use {PeerId, RequestId}

  module _ (node : Node) (c : IsConsistent node) where
    start_pull-IsConsistent :
        (id : String) (reply : Sender) (peer : Option PeerId)
        → IsConsistent (start_pull node id reply peer)
    start_pull-IsConsistent id reply none = record {
      pulls = c.pulls;
      pushes = c.pushes;
      batch_syncs = c.batch_syncs;
      apart = c.apart;
    }
    start_pull-IsConsistent id reply (some peer) = record {
      pulls = Tracked-insert node.swarm peer WireRequest.get_catalog node.pulls _ c.pulls;
      pushes = Tracked-send_request node.swarm peer WireRequest.get_catalog c.pushes;
      batch_syncs = Tracked-send_request node.swarm peer WireRequest.get_catalog c.batch_syncs;
      apart =
          Apart-insert_pull c.apart node.swarm peer WireRequest.get_catalog _ c.pushes
            c.batch_syncs;
    }

    push_first-IsConsistent :
        (peer : PeerId) (reply : Sender) (snapshots : List Value)
        → IsConsistent (push_first node peer reply snapshots)
    push_first-IsConsistent peer reply [] = record {
      pulls = c.pulls;
      pushes = c.pushes;
      batch_syncs = c.batch_syncs;
      apart = c.apart;
    }
    push_first-IsConsistent peer reply (first ∷ rest) = record {
      pulls = Tracked-send_request node.swarm peer (WireRequest.push first) c.pulls;
      pushes = Tracked-insert node.swarm peer (WireRequest.push first) node.pushes _ c.pushes;
      batch_syncs = Tracked-send_request node.swarm peer (WireRequest.push first) c.batch_syncs;
      apart =
          Apart-insert_push c.apart node.swarm peer (WireRequest.push first) _ c.pulls
            c.batch_syncs;
    }

    start_push-IsConsistent :
        (id : String) (reply : Sender) (peer : Option PeerId)
        → IsConsistent (start_push node id reply peer)
    start_push-IsConsistent id reply none = record {
      pulls = c.pulls;
      pushes = c.pushes;
      batch_syncs = c.batch_syncs;
      apart = c.apart;
    }
    start_push-IsConsistent id reply (some peer) =
        push_first-IsConsistent peer reply (all_snapshots node.wire)

    start_batch_sync-IsConsistent :
        (id : String) (reply : Sender) (peer : Option PeerId)
        → IsConsistent (start_batch_sync node id reply peer)
    start_batch_sync-IsConsistent id reply none = record {
      pulls = c.pulls;
      pushes = c.pushes;
      batch_syncs = c.batch_syncs;
      apart = c.apart;
    }
    start_batch_sync-IsConsistent id reply (some peer) = record {
      pulls = Tracked-send_request node.swarm peer WireRequest.get_batch c.pulls;
      pushes = Tracked-send_request node.swarm peer WireRequest.get_batch c.pushes;
      batch_syncs =
          Tracked-insert node.swarm peer WireRequest.get_batch node.batch_syncs _ c.batch_syncs;
      apart =
          Apart-insert_batch_sync c.apart node.swarm peer WireRequest.get_batch _ c.pulls c.pushes;
    }

    -- The node after any command is consistent where the node before it is.
    pub handle_command-IsConsistent :
        (command : P2pCommand) → IsConsistent (handle_command node command)
    unfolding handle_command
    handle_command-IsConsistent stop = c
    handle_command-IsConsistent (pull_from_meshpad_peer id reply) =
        start_pull-IsConsistent id reply (HashMap.get ⦃e = string_key⦄ node.meshpad_peers id)
    handle_command-IsConsistent (push_to_meshpad_peer id reply) =
        start_push-IsConsistent id reply (HashMap.get ⦃e = string_key⦄ node.meshpad_peers id)
    handle_command-IsConsistent (batch_sync_with_meshpad_peer id reply) =
        start_batch_sync-IsConsistent id reply (HashMap.get ⦃e = string_key⦄ node.meshpad_peers id)

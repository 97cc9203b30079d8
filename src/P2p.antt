-- ===== src/P2p.antt =====
-- p2p.rs: the types of the libp2p loop and its state.
pub mod Agent
pub mod Replies
pub mod Respond
pub mod Loop
pub mod Pending
pub mod Ledger
pub mod Conversation
pub mod Push
pub mod Pull
pub mod Peers
pub mod Dispatch
pub mod Log
pub mod Drain
pub mod Frame
pub mod Interleaved
pub mod Build
use mesh_pad.Base.{ℕ, String, Bool, Option, List, [], ◌∷◌, ◌++◌, Result}
use mesh_pad.External.Json.{Json}
use mesh_pad.External.Libp2p.{Libp2p}
use mesh_pad.WireProtocol.{WireRequest, WireResponse}
use mesh_pad.WireStore.{WireStore}
use mesh_pad.AttachmentStore.{WireAttachmentStore}
use mesh_pad.HashMap.{HashMap}
use mesh_pad.Events.{SidecarEvent}

pub record SyncBatchStats : Type 0 where
  pub imported : ℕ
  pub pushed : ℕ

pub record P2pConfig : Type 0 where
  pub http_listen_port : ℕ
  pub default_lan_http_port : ℕ
  pub default_tls_port : ℕ

-- A oneshot sender, by a number that names the waiting caller.
abbrev pub Sender : Type 0
Sender = ℕ

pub data P2pCommand : Type 0 where
  stop : P2pCommand
  pull_from_meshpad_peer : String → Sender → P2pCommand
  push_to_meshpad_peer : String → Sender → P2pCommand
  batch_sync_with_meshpad_peer : String → Sender → P2pCommand

pub data PullStep : Type 0 where
  awaiting_catalog awaiting_notes : PullStep

pub data BatchSyncStep : Type 0 where
  awaiting_remote_batch awaiting_push_ack : BatchSyncStep

-- What was sent on a oneshot sender.
pub data Answer : Type 0 where
  counted : Sender → Result ℕ String → Answer
  synced : Sender → Result SyncBatchStats String → Answer

module _ ⦃json : Json⦄ ⦃libp2p : Libp2p json.Value⦄ where
  open json use {Value}
  open libp2p use {PeerId, RequestId, Channel, Multiaddr, Swarm}

  pub record PullCtx : Type 0 where
    pub peer : PeerId
    pub reply : Sender
    pub step : PullStep

  pub record PushCtx : Type 0 where
    pub peer : PeerId
    pub reply : Sender
    pub remaining : List Value
    pub pushed : ℕ

  pub record BatchSyncCtx : Type 0 where
    pub peer : PeerId
    pub reply : Sender
    pub step : BatchSyncStep
    pub imported : ℕ

  pub data SwarmEvent : Type 0 where
    mdns_discovered : List (PeerId × Multiaddr) → SwarmEvent
    mdns_expired : List (PeerId × Multiaddr) → SwarmEvent
    identify_received : PeerId → String → SwarmEvent
    wire_request : PeerId → WireRequest Value → Channel → SwarmEvent
    wire_response : RequestId → WireResponse Value → SwarmEvent
    outbound_failure : RequestId → String → SwarmEvent
    new_listen_addr : Multiaddr → SwarmEvent
    other : SwarmEvent

  -- The variables of `run_swarm`, the two shared stores, and what went out so far on the oneshot
  -- senders and on the broadcast of events.
  pub record Node : Type 0 where
    pub swarm : Swarm
    pub wire : WireStore Value
    pub attachments : WireAttachmentStore
    pub meshpad_peers : HashMap String PeerId
    pub announced : List String
    pub pulls : HashMap RequestId PullCtx
    pub pushes : HashMap RequestId PushCtx
    pub batch_syncs : HashMap RequestId BatchSyncCtx
    pub answers : List Answer
    pub events : List SidecarEvent

  -- `let _ = reply.send(…)`
  abbrev pub send : Node → Answer → Node
  send node a = record node { answers = node.answers ++ a ∷ [] }

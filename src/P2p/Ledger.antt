-- ===== src/P2p/Ledger.antt =====
-- The account of one caller: its requests that are pending, and the answers that it got.
pub mod Replies
pub mod Loop
pub mod Run
use mesh_pad.Base.{
  ℕ, ◌+◌, ◌≡◌, Bool, true, false, List, [], ◌∷◌, ◌++◌, arith, if◌then◌else◌, nat_beq,
}
use mesh_pad.External.Json.{Json}
use mesh_pad.External.Libp2p.{Libp2p}
use mesh_pad.HashMap.Tally.{tally}
use mesh_pad.P2p.{
  P2pCommand, stop, pull_from_meshpad_peer, push_to_meshpad_peer, batch_sync_with_meshpad_peer,
  Sender, Answer, counted, synced, PullCtx, PushCtx, BatchSyncCtx, Node,
}

abbrev pub share : Sender → Sender → ℕ
share caller reply = if nat_beq reply caller then 1 else 0

-- What a command adds to the account of a caller: one, if it is the caller that it answers.
abbrev pub asks : Sender → P2pCommand → ℕ
asks caller stop = 0
asks caller (pull_from_meshpad_peer id reply) = share caller reply
asks caller (push_to_meshpad_peer id reply) = share caller reply
asks caller (batch_sync_with_meshpad_peer id reply) = share caller reply

abbrev pub recipient : Answer → Sender
recipient (counted reply _) = reply
recipient (synced reply _) = reply

-- How often the caller was answered.
unfoldable pub answered : Sender → List Answer → ℕ
answered caller [] = 0
answered caller (a ∷ rest) = share caller (recipient a) + answered caller rest

pub answered-append :
    (caller : Sender) (answers : List Answer) (a : Answer)
    → answered caller (answers ++ a ∷ []) ≡ answered caller answers + share caller (recipient a)
unfolding answered
answered-append caller [] a = omega arith
answered-append caller (b ∷ answers) a = omega (arith, answered-append caller answers a)

module _ ⦃json : Json⦄ ⦃libp2p : Libp2p json.Value⦄ where
  abbrev pub pull_share : Sender → PullCtx → ℕ
  pull_share caller ctx = share caller ctx.reply

  abbrev pub push_share : Sender → PushCtx → ℕ
  push_share caller ctx = share caller ctx.reply

  abbrev pub batch_sync_share : Sender → BatchSyncCtx → ℕ
  batch_sync_share caller ctx = share caller ctx.reply

  -- How many requests of the caller wait in the three maps.
  unfoldable pub pending : Sender → Node → ℕ
  pending caller node =
      tally (pull_share caller) node.pulls
      + tally (push_share caller) node.pushes
      + tally (batch_sync_share caller) node.batch_syncs

  -- The caller's requests that wait and those that were answered.
  unfoldable pub account : Sender → Node → ℕ
  unfolding pending
  account caller node = pending caller node + answered caller node.answers

-- ===== src/SessionSender.antt =====
-- bitswap/client/internal/session/sessionwantsender.go, with peerresponsetracker.go and
-- sentwantblockstracker.go beside it: which peer of a session is asked for which block. The event
-- loop is one goroutine, so that a change is one step; the empty peer.ID is `none`.
pub mod Trackers
pub mod Infos
pub mod Best
pub mod Wants
pub mod Updates
pub mod Exhaustion
pub mod Sending
pub mod Changes
pub mod Less
pub mod Presences
pub mod Receipts
pub mod Recorded
pub mod Served
pub mod Flags
pub mod History
pub mod Outcomes
mod Tests
use boxo.Base.{ℕ, zero, suc, Bool, true, false, Option, none, some, List, [], ◌∷◌, Key}
use boxo.Base.Map.{Map}
use boxo.BlockPresence
use boxo.SessionPeers

-- `BlockPresence`, in the order of its numbers
pub data Presence : Type 0 where
  dont_have unknown have : Presence

pub record WantInfo (Peer : Type 0) : Type 0 where
  pub block_presence : Map Peer Presence
  pub sent_to : Option Peer
  pub best_peer : Option Peer
  pub exhausted : Bool

-- `sessionWantSender`, with its two trackers
pub record Sender (Cid Peer : Type 0) : Type 0 where
  pub wants : Map Cid (WantInfo Peer)
  pub consecutive_dont_haves : Map Peer ℕ
  pub sent_want_blocks : Map Peer (List Cid)
  pub first_responder : Map Peer ℕ
  pub peers : SessionPeers.Manager Peer
  pub proxy : Bool
  pub want_receiver : Option Peer

-- The calls of the peer manager, the connection manager, the session and the canceller, in order;
-- `prunes` starts the goroutine that signals the peers as unavailable.
pub data Effect (Cid Peer : Type 0) : Type 0 where
  registers : Peer → Effect Cid Peer
  tells : List (SessionPeers.Effect Peer) → Effect Cid Peer
  prunes : List Peer → Effect Cid Peer
  peers_exhausted : List Cid → Effect Cid Peer
  cancels_wants : List Cid → Effect Cid Peer
  sends_wants on_send : Peer → List Cid → List Cid → Effect Cid Peer

-- `wantSets`
pub record WantSets (S : Type 0) : Type 0 where
  pub want_blocks : S
  pub want_haves : S

pub record Update (Cid Peer : Type 0) : Type 0 where
  pub from : Peer
  pub received : List Cid
  pub haves : List Cid
  pub dont_haves : List Cid

-- `change`; the update is `none` if its sender is empty, the availability if its target is.
pub record Change (Cid Peer : Type 0) : Type 0 where
  pub add : List Cid
  pub cancel : List Cid
  pub update : Option (Update Cid Peer)
  pub availability : Option (Peer × Bool)

-- Go's float64, of which the choice of a peer adds, divides and compares values.
pub record Floats (F : Type 0) : Type 0 where
  pub nothing : F
  pub of_int : ℕ → F
  pub plus : F → F → F
  pub over : F → F → F
  pub exceeds : F → F → Bool

-- What a change reads: the block presences, which only other goroutines write, and the random draws.
-- The best peer of a want is read only when the next wants are sent, so that its last draw counts.
pub record World (Cid Peer F : Type 0) : Type 0 where
  pub bpm : BlockPresence.Manager Cid Peer
  pub draw : Cid → List Peer → F

abbrev pub peer_dont_have_limit : ℕ
peer_dont_have_limit = 16

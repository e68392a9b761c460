-- ===== src/Lib.antt =====
-- Verification of the block exchange of boxo: the state that the bitswap client and server keep, and
-- the relaying of want-forwards, as functions on explicit states.
--
-- What the files model, with the paths of the code from the root of the repository:
-- - Wire: the enumerations of bitswap/message/pb/message.pb.go that the rest uses.
-- - Wantlist: bitswap/client/wantlist/wantlist.go. `Wantlist`, `add`, `remove`, `remove_type`,
--   `find` (Contains), `entries`, `absorb`; the memo is part of the state.
-- - BlockPresence: bitswap/client/internal/blockpresencemanager/blockpresencemanager.go.
-- - CidQueue: bitswap/client/internal/session/cidqueue.go.
-- - SessionWants: bitswap/client/internal/session/sessionwants.go, over CidQueue.
-- - PeerLedger: bitswap/server/internal/decision/peer_ledger.go, over the entries of Wantlist.
-- - Relay: bitswap/relaymanager/relaymanager.go.
-- - SessionInterest: bitswap/client/internal/sessioninterestmanager/sessioninterestmanager.go.
-- - PeerWants: bitswap/client/internal/peermanager/peerwantmanager.go; PeerWants.Send has the methods
--   that send wants and cancels.
-- - Message: the type `impl` of bitswap/message/message.go; Message.Proto converts it to and from the
--   wire types of bitswap/message/pb/message.pb.go.
-- - Recall: the type `recallWantlist` of bitswap/client/internal/messagequeue/messagequeue.go, over
--   Wantlist.
-- - ForwardGraph: bitswap/client/internal/peermanager/forwardgraphmanager.go and
--   bitswap/forwardstrategy/forwardstrategy.go.
-- - SessionPeers: bitswap/client/internal/sessionpeermanager/sessionpeermanager.go.
-- - SessionSender: bitswap/client/internal/session/sessionwantsender.go, with the trackers of
--   peerresponsetracker.go and sentwantblockstracker.go beside it, over SessionPeers and BlockPresence.
--   Trackers, Infos, Wants, Updates, Exhaustion, Sending and Changes have the definitions.
-- - TaskMerger: bitswap/server/internal/decision/taskmerger.go.
-- - Base: Go's maps, maps of maps and slices, the interface of sets of CIDs, and the conversions
--   between uint64, float64 and int.
--
-- How the code is read:
-- - `cid.Cid` and `peer.ID` are type parameters with a decidable equality (`Key`): the code only
--   compares them. `undef` stands for the undefined CID.
-- - A Go map is an association list, and a `range` over it goes through the list: the order of the
--   list stands for any order. A map of maps is shared by reference in the code; a write to an inner
--   map is a write of the outer one here.
-- - `cid.Set` comes from another repository. It is the interface `SetOps`: its operations with the
--   laws that its documentation states. `ListSet` shows that the laws can be met.
-- - A slice is a value. Where the code reuses the array of a slice that it gave to a peer's queue,
--   the queue has read it by then.
-- - A method of an object returns the new state beside its result. Methods that hold a lock from
--   their first line to their last are one step each. setForwardGraphDegree of the forward graph
--   writes the degree without the lock: the write is a step of its own there, which other calls may
--   follow before new successors are chosen, and which is done also when the lock is held for ever.
--   A write of the degree in the middle of another call is left out.
-- - Priorities (`int32`) are integers that are only compared. The enumerations of the wire have
--   their three named values; a number outside these, which the wire could carry, is left out.
-- - The clock, random numbers and the answers of other components are arguments; what a call makes
--   other components do is a list of effects, in order.
-- - The float64 values in the choice among peers are an interface without laws, `Floats`. The timer of
--   the forward graph is a state, `Timer`, and a wait for ever is a result, `Outcome`.
-- - The degree of the forward graph is a uint64, which the code turns into a float64 to halve it.
--   `to_float64` rounds as Go does, and is exact below 2^53. Go leaves it to the platform which int a
--   float64 out of range becomes: `IntOfFloat` has this conversion, with the law that it is exact in
--   the range of an int of 64 bits.
-- - A batch of changes to the session want sender reads the block presences as they stand when it
--   begins; other goroutines may write them between batches.
--
-- Loops go through lists by structural recursion. Two loops are on fuel: that of MoveAllWantsLive gets
-- the length of the queue, of which every round takes one; that of SelectNewSuccessors gets the number
-- of successors it is to find, of which every round but the last finds one.
--
-- Not modelled: logging, String methods, Clone of a message (it shares entries with the original),
-- goroutines and channels, the network, the bytes of messages, which generated code writes and reads,
-- and the subsystems outside the parts above.
pub mod Base
pub mod BlockPresence
pub mod CidQueue
pub mod ForwardGraph
pub mod Message
pub mod PeerLedger
pub mod PeerWants
pub mod Recall
pub mod Relay
pub mod SessionInterest
pub mod SessionPeers
pub mod SessionSender
pub mod SessionWants
pub mod TaskMerger
pub mod Wantlist
pub mod Wire

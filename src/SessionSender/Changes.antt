-- ===== src/SessionSender/Changes.antt =====
-- The event loop of bitswap/client/internal/session/sessionwantsender.go. `S` is cid.Set, and `undef`
-- the zero value of cid.Cid.
use boxo.Base.{
  ℕ, Bool, true, not, ◌||◌, ◌&&◌, Option, none, some, List, [], ◌∷◌, ◌++◌, Key, if◌then◌else◌, ltb,
  length,
}
use boxo.Base.Map.{Map, insert}
use boxo.Base.Nested.{is_empty}
use boxo.Base.Sets.{SetOps}
use boxo.SessionPeers
use boxo.SessionPeers.{has_peers}
use boxo.SessionSender.{Sender, Effect, registers, cancels_wants, Update, Change, Floats, World}
use boxo.SessionSender.Wants.{track_want, untrack_want, process_availability}
use boxo.SessionSender.Updates.{process_updates}
use boxo.SessionSender.Exhaustion.{check_for_exhausted_wants}
use boxo.SessionSender.Sending.{send_next_wants}

abbrev pub changes_buffer_size : ℕ
changes_buffer_size = 128

-- The variables of the loop of `onChange`.
pub record Batch (Cid Peer : Type 0) : Type 0 where
  pub sender : Sender Cid Peer
  pub available : Map Peer Bool
  pub cancels : List Cid
  pub updates : List (Update Cid Peer)
  pub effects : List (Effect Cid Peer)

module _ {Cid Peer : Type 0} where
  -- `newSessionWantSender`, for the session's peers
  unfoldable pub new : SessionPeers.Manager Peer → Bool → Sender Cid Peer
  new spm proxy = record {
    wants = [];
    consecutive_dont_haves = [];
    sent_want_blocks = [];
    first_responder = [];
    peers = spm;
    proxy = proxy;
    want_receiver = none;
  }

  -- the change that `Add` puts in the channel
  unfoldable pub add : List Cid → Option (Change Cid Peer)
  add ks =
      if is_empty ks
      then none
      else some (record { add = ks; cancel = []; update = none; availability = none })

  unfoldable pub cancel : List Cid → Option (Change Cid Peer)
  cancel ks =
      if is_empty ks
      then none
      else some (record { add = []; cancel = ks; update = none; availability = none })

  unfoldable pub update : Peer → List Cid → List Cid → List Cid → Option (Change Cid Peer)
  update p ks haves dont_haves =
      if not (is_empty ks) || not (is_empty haves) || not (is_empty dont_haves)
      then some (record {
        add = [];
        cancel = [];
        update = some (record { from = p; received = ks; haves = haves; dont_haves = dont_haves });
        availability = none;
      })
      else none

  unfoldable pub signal_availability : Peer → Bool → Change Cid Peer
  signal_availability p b = record {
    add = [];
    cancel = [];
    update = none;
    availability = some (p, b);
  }

  -- the changes taken from the channel, and those left in it
  unfoldable pub collect_changes :
      List (Change Cid Peer)
      → List (Change Cid Peer)
      → List (Change Cid Peer) × List (Change Cid Peer)
  collect_changes changes [] = (changes, [])
  collect_changes changes (next ∷ queue) =
      let rest = collect_changes (changes ++ next ∷ []) queue in
      if ltb (length changes) changes_buffer_size then rest else (changes, next ∷ queue)

module _ {Cid Peer : Type 0} ⦃ck : Key Cid⦄ ⦃pk : Key Peer⦄ where
  unfoldable pub untrack_all : List Cid → Sender Cid Peer → Sender Cid Peer
  unfolding untrack_want
  untrack_all [] s = s
  untrack_all (c ∷ cs) s = untrack_all cs (untrack_want c s)

  -- the part of the loop of `onChange` about the update
  unfoldable pub note_update : Option (Update Cid Peer) → Batch Cid Peer → Batch Cid Peer
  note_update none b = b
  note_update (some u) b =
      let b' = record b { updates = b.updates ++ u ∷ [] } in
      if is_empty u.received && is_empty u.haves then b' else record b' {
        available = insert u.from true b.available;
        effects = b.effects ++ registers u.from ∷ [];
      }

  unfoldable pub note_availability : Option (Peer × Bool) → Batch Cid Peer → Batch Cid Peer
  note_availability none b = b
  note_availability (some (p, now)) b = record b { available = insert p now b.available }

module _ {Cid Peer F : Type 0} ⦃ck : Key Cid⦄ ⦃pk : Key Peer⦄ ⦃fl : Floats F⦄ where
  unfoldable pub track_all : World Cid Peer F → List Cid → Sender Cid Peer → Sender Cid Peer
  unfolding track_want
  track_all w [] s = s
  track_all w (c ∷ cs) s = track_all w cs (track_want w c s)

  -- one turn of the loop of `onChange`
  unfoldable pub apply_change : World Cid Peer F → Change Cid Peer → Batch Cid Peer → Batch Cid Peer
  unfolding track_all untrack_all note_update note_availability
  apply_change w ch b = note_availability ch.availability (
      note_update ch.update (record b {
        sender = untrack_all ch.cancel (track_all w ch.add b.sender);
        cancels = b.cancels ++ ch.cancel;
      }))

  unfoldable pub apply_changes :
      World Cid Peer F → List (Change Cid Peer) → Batch Cid Peer → Batch Cid Peer
  unfolding apply_change
  apply_changes w [] b = b
  apply_changes w (ch ∷ chs) b = apply_changes w chs (apply_change w ch b)

module _ {Cid Peer F : Type 0} (S : Type 0) ⦃ck : Key Cid⦄ ⦃pk : Key Peer⦄ ⦃sets : SetOps Cid S⦄
    ⦃fl : Floats F⦄ where
  -- `onChange` up to the sending of wants, with the newly available peers
  unfoldable pub process_changes :
      Cid
      → World Cid Peer F
      → List (Change Cid Peer)
      → Sender Cid Peer
      → Sender Cid Peer × List Peer × List (Effect Cid Peer)
  unfolding apply_changes process_availability process_updates check_for_exhausted_wants
  process_changes undef w changes s =
      let b =
        apply_changes w changes
          (record { sender = s; available = []; cancels = []; updates = []; effects = [] }) in
      let t = process_availability w b.available (record {
        sender = b.sender;
        newly_available = [];
        newly_unavailable = [];
        effects = [];
      }) in
      let (s1, dont_haves, es1) = process_updates S w b.updates t.sender in
      let (s2, es2) = check_for_exhausted_wants undef w dont_haves t.newly_unavailable s1 in
      let es3 = if is_empty b.cancels then [] else cancels_wants b.cancels ∷ [] in
      (s2, t.newly_available, b.effects ++ t.effects ++ es1 ++ es2 ++ es3)

  -- `onChange`, for the changes that were collected
  unfoldable pub on_change :
      Cid
      → World Cid Peer F
      → List (Change Cid Peer)
      → Sender Cid Peer
      → Sender Cid Peer × List (Effect Cid Peer)
  unfolding process_changes has_peers send_next_wants
  on_change undef w changes s =
      let (s', newly, es) = process_changes undef w changes s in
      if has_peers s'.peers
      then (let (s'', es') = send_next_wants S newly s' in (s'', es ++ es'))
      else (s', es)

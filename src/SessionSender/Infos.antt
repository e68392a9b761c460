-- ===== src/SessionSender/Infos.antt =====
-- The type `wantInfo` of bitswap/client/internal/session/sessionwantsender.go: what is known of one
-- want. The response tracker it points to is the sender's, and is passed to the operations.
use boxo.Base.{
  ℕ, ◌+◌, Bool, false, Option, none, some, List, [], ◌∷◌, Key, same, if◌then◌else◌, ltb, leb, ◌==◌,
  or_default,
}
use boxo.Base.Map.{Map, lookup, insert, delete}
use boxo.SessionSender.{Presence, dont_have, unknown, have, WantInfo, Floats}
use boxo.SessionSender.Trackers.{choose}

-- the number of a block presence
abbrev pub rank : Presence → ℕ
rank dont_have = 0
rank unknown = 1
rank have = 2

-- The variables `bestBP`, `bestPeer` and `countWithBest`.
pub record Found (Peer : Type 0) : Type 0 where
  pub best_bp : Presence
  pub best : Option Peer
  pub count_with_best : ℕ

module _ {Peer : Type 0} where
  -- one turn of the loop that finds the best presence
  unfoldable pub better_of : Found Peer → Peer → Presence → Found Peer
  better_of f p bp =
      if ltb (rank f.best_bp) (rank bp)
      then record { best_bp = bp; best = some p; count_with_best = 1 }
      else if rank bp == rank f.best_bp
      then record f { count_with_best = f.count_with_best + 1 }
      else f

  unfoldable pub find_best : Found Peer → Map Peer Presence → Found Peer
  unfolding better_of
  find_best f [] = f
  find_best f ((p, bp) ∷ m) = find_best (better_of f p bp) m

  unfoldable pub peers_with : Presence → Map Peer Presence → List Peer
  peers_with b [] = []
  peers_with b ((p, bp) ∷ m) =
      let rest = peers_with b m in if rank bp == rank b then p ∷ rest else rest

  abbrev pub not_found : Found Peer
  not_found = record { best_bp = dont_have; best = none; count_with_best = 0 }

  -- `newWantInfo`
  unfoldable pub new_want_info : WantInfo Peer
  new_want_info = record {
    block_presence = [];
    sent_to = none;
    best_peer = none;
    exhausted = false;
  }

module _ {Peer : Type 0} ⦃pk : Key Peer⦄ where
  -- `wi.blockPresence[p]`
  unfoldable pub presence_of : Peer → Map Peer Presence → Presence
  presence_of p m = or_default dont_have (lookup p m)

  -- whether the want was sent to the peer
  unfoldable pub is_sent_to : Peer → WantInfo Peer → Bool
  is_sent_to p wi = elim wi.sent_to [ none ↦ false | some q ↦ same q p ]

module _ {Peer F : Type 0} ⦃pk : Key Peer⦄ ⦃fl : Floats F⦄ where
  -- the peer that `calculateBestPeer` stores
  unfoldable pub best_of : Map Peer ℕ → (List Peer → F) → Map Peer Presence → Option Peer
  unfolding find_best peers_with choose
  best_of responders draw m =
      let f = find_best not_found m in
      let qs = peers_with f.best_bp m in
      elim f.best [
        | none ↦ none
        | some p ↦ if leb f.count_with_best 1 then some p else choose responders (draw qs) qs
      ]

  unfoldable pub calculate_best_peer : Map Peer ℕ → (List Peer → F) → WantInfo Peer → WantInfo Peer
  unfolding best_of
  calculate_best_peer responders draw wi = record wi {
    best_peer = best_of responders draw wi.block_presence;
  }

  unfoldable pub set_peer_block_presence :
      Map Peer ℕ → (List Peer → F) → Peer → Presence → WantInfo Peer → WantInfo Peer
  unfolding calculate_best_peer
  set_peer_block_presence responders draw p bp wi =
      let wi' =
        calculate_best_peer responders draw
          (record wi { block_presence = insert p bp wi.block_presence }) in
      elim bp [ have ↦ record wi' { exhausted = false } | _ ↦ wi' ]

  unfoldable pub remove_peer : Map Peer ℕ → (List Peer → F) → Peer → WantInfo Peer → WantInfo Peer
  unfolding calculate_best_peer is_sent_to
  remove_peer responders draw p wi =
      let wi' = if is_sent_to p wi then record wi { sent_to = none } else wi in
      calculate_best_peer responders draw
        (record wi' { block_presence = delete p wi'.block_presence })

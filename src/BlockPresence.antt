-- ===== src/BlockPresence.antt =====
-- bitswap/client/internal/blockpresencemanager/blockpresencemanager.go: which peers have said that
-- they have a block, and which that they have it not. The lock makes each method one step.
pub mod Knowledge
mod Tests
use boxo.Base.{
  Bool, true, false, not, ◌&&◌, Option, none, some, List, [], ◌∷◌, Key, if◌then◌else◌, or_default,
  select,
}
use boxo.Base.Map.{Map, lookup, insert, delete, has_key}
use boxo.Base.Nested.{get2, put2, inner}

pub record Manager (Cid Peer : Type 0) : Type 0 where
  pub presence : Map Cid (Map Peer Bool)

module _ {Cid Peer : Type 0} where
  pub new : Manager Cid Peer
  new = record { presence = [] }

module _ {Peer : Type 0} ⦃pk : Key Peer⦄ where
  -- the loop of `allDontHave`, over the presences of one CID
  unfoldable pub none_has : List Peer → Map Peer Bool → Bool
  none_has [] ps = true
  none_has (p ∷ peers) ps =
      let rest = none_has peers ps in
      elim (lookup p ps) [ none ↦ false | some b ↦ if b then false else rest ]

module _ {Cid Peer : Type 0} ⦃ck : Key Cid⦄ ⦃pk : Key Peer⦄ where
  -- `updateBlockPresence`: a HAVE is never changed to a DONT_HAVE. The inner map is made first.
  pub update : Manager Cid Peer → Peer → Cid → Bool → Manager Cid Peer
  update m p c b =
      let made = if has_key c m.presence then m.presence else insert c [] m.presence in
      if or_default false (get2 c p made)
      then record { presence = made }
      else record { presence = put2 c p b made }

  pub update_all : Manager Cid Peer → Peer → List Cid → Bool → Manager Cid Peer
  update_all m p [] b = m
  update_all m p (c ∷ cs) b = update_all (update m p c b) p cs b

  pub receive_from : Manager Cid Peer → Peer → List Cid → List Cid → Manager Cid Peer
  unfolding update_all
  receive_from m p haves dont_haves = update_all (update_all m p haves true) p dont_haves false

  unfoldable pub peer_has_block : Manager Cid Peer → Peer → Cid → Bool
  peer_has_block m p c = or_default false (get2 c p m.presence)

  unfoldable pub peer_does_not_have_block : Manager Cid Peer → Peer → Cid → Bool
  peer_does_not_have_block m p c = elim (get2 c p m.presence) [ none ↦ false | some b ↦ not b ]

  unfoldable pub all_dont_have : Manager Cid Peer → List Peer → Cid → Bool
  all_dont_have m peers c = elim (lookup c m.presence) [
    | none ↦ false
    | some ps ↦ none_has peers ps
  ]

  unfoldable pub all_peers_do_not_have_block : Manager Cid Peer → List Peer → List Cid → List Cid
  unfolding all_dont_have none_has
  all_peers_do_not_have_block m peers ks = select (all_dont_have m peers) ks

  pub remove_keys : Manager Cid Peer → List Cid → Manager Cid Peer
  remove_keys m [] = m
  remove_keys m (c ∷ cs) = remove_keys (record { presence = delete c m.presence }) cs

  pub tracks_key : Manager Cid Peer → Cid → Bool
  tracks_key m c = has_key c m.presence

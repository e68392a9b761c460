-- ===== src/BlockPresence/Knowledge.antt =====
-- What the manager knows of a peer and a block: nothing, a HAVE or a DONT_HAVE.
use boxo.Base.{
  Bool, true, false, ◌&&◌, ◌||◌, Option, none, some, List, [], ◌∷◌, Key, same, contains,
  if◌then◌else◌, or_default, arith, ◌≡◌, refl, eq_of_same, contains-select,
}
use boxo.Base.Map.{lookup, insert, delete, lookup-delete}
use boxo.Base.Nested.{get2, inner, get2-put2, get2-insert, get2-delete, get2_absent}
use boxo.BlockPresence.{
  Manager, update, update_all, receive_from, peer_has_block, peer_does_not_have_block, none_has,
  all_dont_have, all_peers_do_not_have_block, remove_keys, tracks_key,
}

-- What is known after a report: a HAVE stays.
abbrev pub learn : Option Bool → Bool → Option Bool
learn (some true) b = some true
learn _ b = some b

module _ {Cid Peer : Type 0} ⦃ck : Key Cid⦄ ⦃pk : Key Peer⦄ where
  -- `some true` for a HAVE, `some false` for a DONT_HAVE.
  abbrev pub known : Manager Cid Peer → Peer → Cid → Option Bool
  known m p c = get2 c p m.presence

  known-update :
      (m : Manager Cid Peer) (p q : Peer) (c d : Cid) (b : Bool)
      → known (update m p c b) q d
        ≡ (if same c d && same p q then learn (known m p c) b else known m q d)
  unfolding update lookup
  known-update m p q c d b = ground (
    arith,
    get2-put2 c d p q b m.presence,
    get2-put2 c d p q b (insert c [] m.presence),
    get2-insert c d q [] m.presence,
    get2-insert c c p [] m.presence,
    get2_absent c p m.presence,
    get2_absent c q m.presence,
    get2_absent d q m.presence,
    eq_of_same c d,
    eq_of_same p q,
  )

  known-update_all :
      (m : Manager Cid Peer) (p q : Peer) (d : Cid) (cs : List Cid) (b : Bool)
      → known (update_all m p cs b) q d
        ≡ (if contains d cs && same p q then learn (known m p d) b else known m q d)
  unfolding update_all
  known-update_all m p q d [] b = refl
  known-update_all m p q d (c ∷ cs) b = ground (
    arith,
    known-update_all (update m p c b) p q d cs b,
    known-update m p q c d b,
    known-update m p p c d b,
    eq_of_same c d,
    eq_of_same p q,
  )

  -- After a report the manager knows of the reporting peer: a HAVE for each CID that the report has
  -- or for which it knew a HAVE just before the report; else a DONT_HAVE for each CID that the report
  -- denies; else what it knew. Of all other peers it knows what it knew.
  pub known-receive_from :
      (m : Manager Cid Peer) (p q : Peer) (d : Cid) (haves dont_haves : List Cid)
      → known (receive_from m p haves dont_haves) q d ≡ (
          if same p q
          then (if contains d haves || or_default false (known m p d)
              then some true
              else if contains d dont_haves
              then some false
              else known m p d)
          else known m q d)
  unfolding receive_from
  known-receive_from m p q d haves dont_haves = ground (
    arith,
    known-update_all (update_all m p haves true) p q d dont_haves false,
    known-update_all m p q d haves true,
    known-update_all m p p d haves true,
    eq_of_same p q,
  )

  known-remove_keys :
      (m : Manager Cid Peer) (q : Peer) (d : Cid) (cs : List Cid)
      → known (remove_keys m cs) q d ≡ (if contains d cs then none else known m q d)
  unfolding remove_keys
  known-remove_keys m q d [] = refl
  known-remove_keys m q d (c ∷ cs) = ground (
    arith,
    known-remove_keys (record { presence = delete c m.presence }) q d cs,
    get2-delete c d q m.presence,
  )

  tracks_key-remove_keys :
      (m : Manager Cid Peer) (d : Cid) (cs : List Cid)
      → tracks_key (remove_keys m cs) d ≡ (if contains d cs then false else tracks_key m d)
  unfolding remove_keys tracks_key
  tracks_key-remove_keys m d [] = refl
  tracks_key-remove_keys m d (c ∷ cs) = ground (
    arith,
    tracks_key-remove_keys (record { presence = delete c m.presence }) d cs,
    lookup-delete c d m.presence,
  )

  -- RemoveKeys forgets all that is known of the given CIDs, their tracking included, and nothing of
  -- any other.
  pub remove_keys_forgets :
      (m : Manager Cid Peer) (q : Peer) (d : Cid) (cs : List Cid)
      → (known (remove_keys m cs) q d ≡ (if contains d cs then none else known m q d))
        × (tracks_key (remove_keys m cs) d ≡ (if contains d cs then false else tracks_key m d))
  remove_keys_forgets m q d cs = (known-remove_keys m q d cs, tracks_key-remove_keys m d cs)

  -- whether every peer of the list is known not to have the block
  pub all_deny : Manager Cid Peer → List Peer → Cid → Bool
  all_deny m [] c = true
  all_deny m (p ∷ peers) c = peer_does_not_have_block m p c && all_deny m peers c

  none_has-all_deny :
      (m : Manager Cid Peer) (peers : List Peer) (c : Cid)
      → none_has peers (inner c m.presence) ≡ all_deny m peers c
  unfolding none_has all_deny peer_does_not_have_block get2
  none_has-all_deny m [] c = refl
  none_has-all_deny m (p ∷ peers) c = ground (arith, none_has-all_deny m peers c)

  all_dont_have-all_deny :
      (m : Manager Cid Peer) (peers : List Peer) (c : Cid)
      → all_dont_have m peers c ≡ (tracks_key m c && all_deny m peers c)
  unfolding all_dont_have tracks_key
  all_dont_have-all_deny m peers c = ground (arith, none_has-all_deny m peers c)

  -- AllPeersDoNotHaveBlock returns a CID exactly when it is among the given CIDs, something is
  -- tracked of it, and every given peer is known not to have it.
  pub contains-all_peers_do_not_have_block :
      (m : Manager Cid Peer) (peers : List Peer) (ks : List Cid) (c : Cid)
      → contains c (all_peers_do_not_have_block m peers ks)
        ≡ (contains c ks && (tracks_key m c && all_deny m peers c))
  unfolding all_peers_do_not_have_block
  contains-all_peers_do_not_have_block m peers ks c =
      rw (contains-select (all_dont_have m peers) c ks, all_dont_have-all_deny m peers c)

  -- A HAVE that the manager knows stays through a report, whichever peer sends it, and the peer is
  -- then not said not to have the block.
  pub have_persists :
      (m : Manager Cid Peer) (p q : Peer) (c : Cid) (haves dont_haves : List Cid)
      → peer_has_block m q c ≡ true
      → (peer_has_block (receive_from m p haves dont_haves) q c ≡ true)
        × (peer_does_not_have_block (receive_from m p haves dont_haves) q c ≡ false)
  unfolding peer_has_block peer_does_not_have_block
  have_persists m p q c haves dont_haves h = (
    ground (arith, known-receive_from m p q c haves dont_haves, eq_of_same p q),
    ground (arith, known-receive_from m p q c haves dont_haves, eq_of_same p q),
  )

-- ===== src/SessionSender/Trackers.antt =====
-- bitswap/client/internal/session/peerresponsetracker.go and sentwantblockstracker.go.
use boxo.Base.{
  ℕ, ◌+◌, Bool, true, ◌||◌, ◌&&◌, Option, none, some, List, [], ◌∷◌, Key, same, contains,
  or_default, is_some, if◌then◌else◌, arith, ◌≡◌, refl, eq_of_same, same_refl,
}
use boxo.Base.Map.{Map, lookup, insert, lookup-insert}
use boxo.Base.Sets.{insert_key, contains-insert_key}
use boxo.SessionSender.{Floats}

module _ {Peer : Type 0} ⦃pk : Key Peer⦄ where
  unfoldable pub received_block_from : Peer → Map Peer ℕ → Map Peer ℕ
  received_block_from p m = insert p (or_default 0 (lookup p m) + 1) m

  unfoldable pub get_peer_count : Map Peer ℕ → Peer → ℕ
  get_peer_count m p = or_default 1 (lookup p m)

  -- `total`, the first loop of `choose`
  unfoldable pub total_count : Map Peer ℕ → List Peer → ℕ
  unfolding get_peer_count
  total_count m [] = 0
  total_count m (p ∷ ps) = get_peer_count m p + total_count m ps

  -- `choose`. Its second loop ends at the first peer at which the sum exceeds the draw, or else with
  -- the last one.
  unfoldable pub choose_at :
      {F : Type 0} ⦃fl : Floats F⦄ → Map Peer ℕ → F → ℕ → F → List Peer → Option Peer
  unfolding get_peer_count
  choose_at ⦃fl⦄ m rnd total counted [] = none
  choose_at ⦃fl⦄ m rnd total counted (p ∷ ps) =
      let sum = fl.plus counted (fl.over (fl.of_int (get_peer_count m p)) (fl.of_int total)) in
      let rest = choose_at m rnd total sum ps in
      if fl.exceeds sum rnd then some p else some (or_default p rest)

  unfoldable pub choose : {F : Type 0} ⦃fl : Floats F⦄ → Map Peer ℕ → F → List Peer → Option Peer
  unfolding total_count choose_at
  choose ⦃fl⦄ m rnd ps = choose_at m rnd (total_count m ps) fl.nothing ps

  choose_at-contains :
      {F : Type 0} ⦃fl : Floats F⦄
      → (m : Map Peer ℕ) (rnd : F) (total : ℕ) (counted : F) (ps : List Peer) (p : Peer)
      → choose_at m rnd total counted ps ≡ some p
      → contains p ps ≡ true
  unfolding choose_at
  choose_at-contains ⦃fl⦄ m rnd total counted [] p h = cc
  choose_at-contains ⦃fl⦄ m rnd total counted (q ∷ qs) p h = ground (
    arith,
    choose_at-contains m rnd total
        (fl.plus counted (fl.over (fl.of_int (get_peer_count m q)) (fl.of_int total))) qs p,
    same_refl p,
  )

  choose_at-is_some :
      {F : Type 0} ⦃fl : Floats F⦄
      → (m : Map Peer ℕ) (rnd : F) (total : ℕ) (counted : F) (q : Peer) (qs : List Peer)
      → is_some (choose_at m rnd total counted (q ∷ qs)) ≡ true
  unfolding choose_at
  choose_at-is_some ⦃fl⦄ m rnd total counted q qs = ground arith

  -- The chosen peer is one of the candidates.
  pub choose-contains :
      {F : Type 0} ⦃fl : Floats F⦄
      → (m : Map Peer ℕ) (rnd : F) (ps : List Peer) (p : Peer) → choose m rnd ps ≡ some p
      → contains p ps ≡ true
  unfolding choose
  choose-contains ⦃fl⦄ m rnd ps p h = choose_at-contains m rnd (total_count m ps) fl.nothing ps p h

  -- One is chosen, if there is a candidate.
  pub choose-is_some :
      {F : Type 0} ⦃fl : Floats F⦄
      → (m : Map Peer ℕ) (rnd : F) (q : Peer) (qs : List Peer)
      → is_some (choose m rnd (q ∷ qs)) ≡ true
  unfolding choose
  choose-is_some ⦃fl⦄ m rnd q qs = choose_at-is_some m rnd (total_count m (q ∷ qs)) fl.nothing q qs

module _ {K : Type 0} ⦃key : Key K⦄ where
  -- the loop of `addSentWantBlocksTo`
  unfoldable pub insert_keys : List K → List K → List K
  unfolding insert_key
  insert_keys xs [] = xs
  insert_keys xs (c ∷ cs) = insert_keys (insert_key c xs) cs

  contains-insert_keys :
      (c : K) (xs ks : List K) → contains c (insert_keys xs ks) ≡ (contains c ks || contains c xs)
  unfolding insert_keys
  contains-insert_keys c xs [] = refl
  contains-insert_keys c xs (k ∷ ks) =
      ground (arith, contains-insert_keys c (insert_key k xs) ks, contains-insert_key k c xs)

module _ {Cid Peer : Type 0} ⦃ck : Key Cid⦄ ⦃pk : Key Peer⦄ where
  unfoldable pub add_sent_want_blocks_to :
      Map Peer (List Cid) → Peer → List Cid → Map Peer (List Cid)
  unfolding insert_keys
  add_sent_want_blocks_to m p ks = insert p (insert_keys (or_default [] (lookup p m)) ks) m

  unfoldable pub have_sent_want_block_to : Map Peer (List Cid) → Peer → Cid → Bool
  have_sent_want_block_to m p c = contains c (or_default [] (lookup p m))

  -- What is recorded as sent after an addition.
  pub have_sent-add_sent :
      (m : Map Peer (List Cid)) (p q : Peer) (ks : List Cid) (c : Cid)
      → have_sent_want_block_to (add_sent_want_blocks_to m p ks) q c
        ≡ (same p q && contains c ks || have_sent_want_block_to m q c)
  unfolding add_sent_want_blocks_to have_sent_want_block_to
  have_sent-add_sent m p q ks c = ground (
    arith,
    lookup-insert p q (insert_keys (or_default [] (lookup p m)) ks) m,
    contains-insert_keys c (or_default [] (lookup p m)) ks,
    eq_of_same p q,
  )

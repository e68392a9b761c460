-- ===== src/SessionSender/Recorded.antt =====
-- A want waits for a peer only if it was sent to that peer, in
-- bitswap/client/internal/session/sessionwantsender.go.
use boxo.Base.{
  Bool, true, false, ◌||◌, ◌&&◌, some, List, [], ◌∷◌, ◌++◌, Key, same, if◌then◌else◌, is_some,
  contains, arith, ◌≡◌, refl, inl, inr, Option-cases, eq_of_same, ◌∙◌,
}
use boxo.Base.Map.{Map, keys, lookup, insert, modify, lookup-modify, lookup-insert}
use boxo.Base.Sets.{SetOps}
use boxo.SessionSender.{
  WantInfo, Sender, Effect, registers, tells, prunes, peers_exhausted, cancels_wants, sends_wants,
  on_send, WantSets,
}
use boxo.SessionSender.Trackers.{have_sent_want_block_to, have_sent-add_sent}
use boxo.SessionSender.Infos.{is_sent_to}
use boxo.SessionSender.Sending.{
  for_peer, plan_block, plan_haves, next_receiver, set_sent_to, send_block, send_next, send_each,
  send_to, send_wants, send_next_wants,
}
use boxo.SessionSender.Less.{waits_for, Calm}

module _ {Cid Peer : Type 0} ⦃ck : Key Cid⦄ ⦃pk : Key Peer⦄ where
  -- whether a want-block for the CID is sent to the peer
  unfoldable pub asks : Cid → Peer → List (Effect Cid Peer) → Bool
  asks c p [] = false
  asks c p (sends_wants q blocks haves ∷ es) = same q p && contains c blocks || asks c p es
  asks c p (_ ∷ es) = asks c p es

  pub asks-append :
      (c : Cid) (p : Peer) (es fs : List (Effect Cid Peer))
      → asks c p (es ++ fs) ≡ (asks c p es || asks c p fs)
  unfolding asks
  asks-append c p [] fs = refl
  asks-append c p (sends_wants q blocks haves ∷ es) fs = ground (arith, asks-append c p es fs)
  asks-append c p (registers q ∷ es) fs = asks-append c p es fs
  asks-append c p (tells xs ∷ es) fs = asks-append c p es fs
  asks-append c p (prunes ps ∷ es) fs = asks-append c p es fs
  asks-append c p (peers_exhausted ks ∷ es) fs = asks-append c p es fs
  asks-append c p (cancels_wants ks ∷ es) fs = asks-append c p es fs
  asks-append c p (on_send q blocks haves ∷ es) fs = asks-append c p es fs

  -- The want-blocks that wants wait for are recorded as sent.
  abbrev pub IsRecorded : Sender Cid Peer → Type 0
  IsRecorded s =
      (c : Cid) (p : Peer)
      → waits_for c p s ≡ true
      → have_sent_want_block_to s.sent_want_blocks p c ≡ true

  pub Calm-IsRecorded : (s s' : Sender Cid Peer) → Calm s s' → IsRecorded s → IsRecorded s'
  Calm-IsRecorded s s' l r c p h = rw l.sent (r c p (l.waits c p h))

module _ {Cid Peer : Type 0} ⦃ck : Key Cid⦄ ⦃pk : Key Peer⦄ where
  waits_for-set :
      (k : Cid) (r : Peer) (s : Sender Cid Peer) (c : Cid) (p : Peer)
      → waits_for c p
          (record s { want_receiver = some r; wants = modify k (set_sent_to r) s.wants })
        ≡ true
      → (same r p && same k c || waits_for c p s) ≡ true
  unfolding waits_for is_sent_to set_sent_to
  waits_for-set k r s c p h = elim (Option-cases (lookup c s.wants)) [
    | inl e ↦ ground (arith, lookup-modify k c (set_sent_to r) s.wants)
    | inr (wi, e) ↦ ground (arith, lookup-modify k c (set_sent_to r) s.wants)
  ]

module _ {Cid Peer : Type 0} ⦃ck : Key Cid⦄ ⦃pk : Key Peer⦄ where
  waits_for-wants :
      (c : Cid) (p : Peer) (s t : Sender Cid Peer)
      → s.wants ≡ t.wants
      → waits_for c p s ≡ waits_for c p t
  unfolding waits_for
  waits_for-wants c p s t e = rw e refl

module _ {Cid Peer S : Type 0} ⦃ck : Key Cid⦄ ⦃pk : Key Peer⦄ ⦃sets : SetOps Cid S⦄ where
  -- whether a want-block for the CID is about to be sent to the peer
  abbrev is_planned : Cid → Peer → Map Peer (WantSets S) → Bool
  is_planned c p aw = sets.has (for_peer sets.empty aw p).want_blocks c

  is_planned-plan_block :
      (r : Peer) (k : Cid) (aw : Map Peer (WantSets S)) (c : Cid) (p : Peer)
      → is_planned c p (plan_block r k aw) ≡ (same r p && same k c || is_planned c p aw)
  unfolding plan_block for_peer
  is_planned-plan_block r k aw c p =
      let snd = for_peer sets.empty aw r in
      ground (
        arith,
        lookup-insert r p (record snd { want_blocks = sets.add snd.want_blocks k }) aw,
        sets.has-add snd.want_blocks k c,
        eq_of_same r p,
      )

  is_planned-plan_haves :
      (ps : List Peer) (k : Cid) (aw : Map Peer (WantSets S)) (c : Cid) (p : Peer)
      → is_planned c p (plan_haves ps k aw) ≡ is_planned c p aw
  unfolding plan_haves for_peer
  is_planned-plan_haves [] k aw c p = refl
  is_planned-plan_haves (q ∷ qs) k aw c p =
      let snd = for_peer sets.empty aw q in
      let snd' = record snd { want_haves = sets.add snd.want_haves k } in
      ground (
        arith,
        is_planned-plan_haves qs k (insert q snd' aw) c p,
        lookup-insert q p snd' aw,
        eq_of_same q p,
      )

  -- The want-blocks that wants wait for are recorded as sent or about to be sent.
  abbrev IsPlanned : Sender Cid Peer → Map Peer (WantSets S) → Type 0
  IsPlanned s aw =
      (c : Cid) (p : Peer)
      → waits_for c p s ≡ true
      → (have_sent_want_block_to s.sent_want_blocks p c || is_planned c p aw) ≡ true

  send_block-IsPlanned :
      (k : Cid) (wi : WantInfo Peer) (s : Sender Cid Peer) (aw : Map Peer (WantSets S))
      → IsPlanned s aw
      → IsPlanned (send_block k wi s aw).0 (send_block k wi s aw).1
  unfolding send_block
  send_block-IsPlanned k wi s aw h c p = elim (Option-cases (next_receiver s.want_receiver wi)) [
    | inl e ↦ rw (send_block, e) (h c p)
    | inr (r, e) ↦
        rw (send_block, e)
          (λ w. ground (arith, waits_for-set k r s c p w, h c p, is_planned-plan_block r k aw c p))
  ]

  plan_haves-IsPlanned :
      (ps : List Peer) (k : Cid) (s : Sender Cid Peer) (aw : Map Peer (WantSets S))
      → IsPlanned s aw
      → IsPlanned s (plan_haves ps k aw)
  plan_haves-IsPlanned ps k s aw h c p w =
      ground (arith, h c p w, is_planned-plan_haves ps k aw c p)

  if-IsPlanned :
      (t : Bool) (a b : Sender Cid Peer × Map Peer (WantSets S))
      → IsPlanned a.0 a.1
      → IsPlanned b.0 b.1
      → IsPlanned (if t then a else b).0 (if t then a else b).1
  if-IsPlanned true a b l r = l
  if-IsPlanned false a b l r = r

  send_next-IsPlanned :
      (newly : List Peer) (k : Cid) (s : Sender Cid Peer) (aw : Map Peer (WantSets S))
      → IsPlanned s aw
      → IsPlanned (send_next newly k s aw).0 (send_next newly k s aw).1
  unfolding send_next
  send_next-IsPlanned newly k s aw h c p = elim (Option-cases (lookup k s.wants)) [
    | inl e ↦ rw (send_next, e) (h c p)
    | inr (wi, e) ↦
        let aw' = plan_haves s.peers.peers k (plan_haves newly k aw) in
        rw (send_next, e)
          (if-IsPlanned s.proxy (s, aw')
            (if is_some wi.sent_to then (s, aw) else send_block k wi s aw)
            (plan_haves-IsPlanned s.peers.peers k s (plan_haves newly k aw)
              (plan_haves-IsPlanned newly k s aw h))
            (if-IsPlanned (is_some wi.sent_to) (s, aw) (send_block k wi s aw) h
              (send_block-IsPlanned k wi s aw h))
            c p)
  ]

  send_each-IsPlanned :
      (newly : List Peer) (ks : List Cid) (s : Sender Cid Peer) (aw : Map Peer (WantSets S))
      → IsPlanned s aw
      → IsPlanned (send_each newly ks s aw).0 (send_each newly ks s aw).1
  unfolding send_each
  send_each-IsPlanned newly [] s aw h = h
  send_each-IsPlanned newly (k ∷ ks) s aw h =
      let (s', aw') = send_next newly k s aw in
      send_each-IsPlanned newly ks s' aw' (send_next-IsPlanned newly k s aw h)

  send_next-sent :
      (newly : List Peer) (k : Cid) (s : Sender Cid Peer) (aw : Map Peer (WantSets S))
      → (send_next newly k s aw).0.sent_want_blocks ≡ s.sent_want_blocks
  unfolding send_next send_block
  send_next-sent newly k s aw = elim (Option-cases (lookup k s.wants)) [
    | inl e ↦ rw (send_next, e) refl
    | inr (wi, e) ↦ elim (Option-cases (next_receiver s.want_receiver wi)) [
      | inl n ↦ ground arith
      | inr (r, n) ↦ ground arith
    ]
  ]

  send_each-sent :
      (newly : List Peer) (ks : List Cid) (s : Sender Cid Peer) (aw : Map Peer (WantSets S))
      → (send_each newly ks s aw).0.sent_want_blocks ≡ s.sent_want_blocks
  unfolding send_each
  send_each-sent newly [] s aw = refl
  send_each-sent newly (k ∷ ks) s aw =
      let (s', aw') = send_next newly k s aw in
      send_each-sent newly ks s' aw' ∙ send_next-sent newly k s aw

  pub send_wants-wants :
      (aw : Map Peer (WantSets S)) (s : Sender Cid Peer) → (send_wants aw s).0.wants ≡ s.wants
  unfolding send_wants send_to
  send_wants-wants [] s = refl
  send_wants-wants ((q, snd) ∷ aw) s = send_wants-wants aw (send_to q snd s).0

  -- What is sent is what was planned.
  send_wants_lem :
      (aw : Map Peer (WantSets S)) (s : Sender Cid Peer) (c : Cid) (p : Peer)
      → (have_sent_want_block_to (send_wants aw s).0.sent_want_blocks p c
          ≡ (have_sent_want_block_to s.sent_want_blocks p c || asks c p (send_wants aw s).1))
        × (is_planned c p aw ≡ true
            → have_sent_want_block_to (send_wants aw s).0.sent_want_blocks p c ≡ true)
  unfolding send_wants send_to asks for_peer lookup
  send_wants_lem [] s c p = (ground arith, ground (arith, sets.has-empty c))
  send_wants_lem ((q, snd) ∷ aw) s c p =
      let s' = (send_to q snd s).0 in
      let (r, t) = send_wants_lem aw s' c p in
      let a = have_sent-add_sent s.sent_want_blocks q p (sets.keys snd.want_blocks) c in
      (ground (arith, r, a), ground (arith, t, r, a, sets.contains-keys snd.want_blocks c))

module _ {Cid Peer : Type 0} (S : Type 0) ⦃ck : Key Cid⦄ ⦃pk : Key Peer⦄ ⦃sets : SetOps Cid S⦄ where
  -- After sendNextWants the wants that wait are recorded as sent, and what is newly recorded was sent.
  pub send_next_wants_lem :
      (newly : List Peer) (s : Sender Cid Peer)
      → IsRecorded s
      → IsRecorded (send_next_wants S newly s).0
        × ((c : Cid) (p : Peer)
            → have_sent_want_block_to (send_next_wants S newly s).0.sent_want_blocks p c ≡ (
                have_sent_want_block_to s.sent_want_blocks p c
                || asks c p (send_next_wants S newly s).1))
  unfolding send_next_wants waits_for
  send_next_wants_lem newly s h =
      let (s', aw) = send_each {S = S} newly (keys s.wants) s [] in
      let e = send_each-sent {S = S} newly (keys s.wants) s [] in
      let planned =
        send_each-IsPlanned {S = S} newly (keys s.wants) s [] (λ c p w. ground (arith, h c p w)) in
      (
        λ c p w.
            let (r, t) = send_wants_lem aw s' c p in
            ground (
              arith,
              waits_for-wants c p (send_wants aw s').0 s' (send_wants-wants aw s'),
              planned c p,
              r,
              t,
            ),
        λ c p. let (r, t) = send_wants_lem aw s' c p in r ∙ rw e refl,
      )

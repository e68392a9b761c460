-- ===== src/SessionSender/Served.antt =====
-- `sendNextWants` of bitswap/client/internal/session/sessionwantsender.go leaves no want behind for
-- which there is a peer to ask.
use boxo.Base.{
  Bool, true, false, not, ◌||◌, Option, none, some, List, [], ◌∷◌, Key, same, if◌then◌else◌,
  is_some, contains, arith, ◌≡◌, refl, inl, inr, Bool-cases, Option-cases, eq_of_same, ◌∙◌,
  same_refl,
}
use boxo.Base.Map.{Map, keys, lookup, has_key, modify, lookup-modify, contains-keys}
use boxo.Base.Sets.{SetOps}
use boxo.SessionSender.{WantInfo, Sender, WantSets}
use boxo.SessionSender.Recorded.{send_wants-wants}
use boxo.SessionSender.Less.{IsFresh, AllFresh, modify-AllFresh}
use boxo.SessionSender.Sending.{
  plan_haves, next_receiver, set_sent_to, send_block, send_next, send_each, send_wants,
  send_next_wants,
}

module _ {Cid Peer : Type 0} ⦃ck : Key Cid⦄ where
  -- The want waits for a peer, or there is no best peer to ask.
  unfoldable pub is_served : Cid → Sender Cid Peer → Bool
  is_served c s = elim (lookup c s.wants) [
    | none ↦ true
    | some wi ↦ is_some wi.sent_to || not (is_some wi.best_peer)
  ]

module _ {Cid Peer : Type 0} ⦃ck : Key Cid⦄ ⦃pk : Key Peer⦄ where
  -- what a turn of the loop does to the wants
  pub record Turn (k : Cid) (s s' : Sender Cid Peer) : Type 0 where
    pub same_proxy : s'.proxy ≡ s.proxy
    pub same_peers : s'.peers ≡ s.peers
    pub same_keys : (c : Cid) → has_key c s'.wants ≡ has_key c s.wants
    pub stays : (c : Cid) → is_served c s ≡ true → is_served c s' ≡ true
    pub fresh : AllFresh s → AllFresh s'
    pub served : s.proxy ≡ false → is_served k s' ≡ true

  -- what the whole loop does to the wants
  pub record Served (ks : List Cid) (s s' : Sender Cid Peer) : Type 0 where
    pub same_proxy : s'.proxy ≡ s.proxy
    pub same_peers : s'.peers ≡ s.peers
    pub same_keys : (c : Cid) → has_key c s'.wants ≡ has_key c s.wants
    pub stays : (c : Cid) → is_served c s ≡ true → is_served c s' ≡ true
    pub fresh : AllFresh s → AllFresh s'
    pub served : s.proxy ≡ false → (c : Cid) → contains c ks ≡ true → is_served c s' ≡ true

  idle : (k : Cid) (s : Sender Cid Peer) → (s.proxy ≡ false → is_served k s ≡ true) → Turn k s s
  idle k s h = record {
    same_proxy = refl;
    same_peers = refl;
    same_keys = λ c. refl;
    stays = λ c e. e;
    fresh = λ h. h;
    served = h;
  }

module _ {Cid Peer : Type 0} ⦃ck : Key Cid⦄ where
  is_served-wants :
      (c : Cid) (s t : Sender Cid Peer) → s.wants ≡ t.wants → is_served c s ≡ is_served c t
  unfolding is_served
  is_served-wants c s t e = rw e refl

  missing-is_served :
      (c : Cid) (s : Sender Cid Peer) → has_key c s.wants ≡ false → is_served c s ≡ true
  unfolding is_served
  missing-is_served c s h = ground arith

module _ {Cid Peer : Type 0} ⦃ck : Key Cid⦄ ⦃pk : Key Peer⦄ where
  -- the sender when the receiver is asked for a block
  abbrev asked_of : Peer → Cid → Sender Cid Peer → Sender Cid Peer
  asked_of r k s = record s { want_receiver = some r; wants = modify k (set_sent_to r) s.wants }

  asked_of-is_served :
      (r : Peer) (k : Cid) (s : Sender Cid Peer) (c : Cid)
      → is_served c (asked_of r k s) ≡ (same k c || is_served c s)
  unfolding is_served set_sent_to
  asked_of-is_served r k s c = elim (Option-cases (lookup c s.wants)) [
    | inl e ↦ ground (arith, lookup-modify k c (set_sent_to r) s.wants)
    | inr (wi, e) ↦ ground (arith, lookup-modify k c (set_sent_to r) s.wants)
  ]

  asked_of-has_key :
      (r : Peer) (k : Cid) (s : Sender Cid Peer) (c : Cid)
      → has_key c (asked_of r k s).wants ≡ has_key c s.wants
  asked_of-has_key r k s c = ground (arith, lookup-modify k c (set_sent_to r) s.wants)

module _ {Peer : Type 0} ⦃pk : Key Peer⦄ where
  set_sent_to-IsFresh : (r : Peer) (wi : WantInfo Peer) → IsFresh wi → IsFresh (set_sent_to r wi)
  unfolding set_sent_to
  set_sent_to-IsFresh r wi h = record { distinct = h.distinct; is_best = h.is_best }

  next_receiver_lem :
      (receiver : Option Peer) (wi : WantInfo Peer)
      → next_receiver receiver wi ≡ none
      → wi.best_peer ≡ none
  unfolding next_receiver
  next_receiver_lem none wi e = e
  next_receiver_lem (some r) wi e = ground arith

module _ {Cid Peer : Type 0} ⦃ck : Key Cid⦄ ⦃pk : Key Peer⦄ where
  no_receiver :
      (k : Cid) (wi : WantInfo Peer) (s : Sender Cid Peer)
      → lookup k s.wants ≡ some wi
      → next_receiver s.want_receiver wi ≡ none
      → is_served k s ≡ true
  unfolding is_served
  no_receiver k wi s l e = ground (arith, next_receiver_lem s.want_receiver wi e)

module _ {Cid Peer S : Type 0} ⦃ck : Key Cid⦄ ⦃pk : Key Peer⦄ ⦃sets : SetOps Cid S⦄ where
  send_block-Turn :
      (k : Cid) (wi : WantInfo Peer) (s : Sender Cid Peer) (aw : Map Peer (WantSets S))
      → lookup k s.wants ≡ some wi
      → Turn k s (send_block k wi s aw).0
  unfolding send_block
  send_block-Turn k wi s aw l = elim (Option-cases (next_receiver s.want_receiver wi)) [
    | inl e ↦ rw (send_block, e) (idle k s (λ h. no_receiver k wi s l e))
    | inr (r, e) ↦
        rw (send_block, e)
          (record {
            same_proxy = refl;
            same_peers = refl;
            same_keys = λ c. asked_of-has_key r k s c;
            stays = λ c h. ground (arith, asked_of-is_served r k s c);
            fresh = modify-AllFresh k (set_sent_to r) s (λ wi' h. set_sent_to-IsFresh r wi' h);
            served = λ h. ground (arith, asked_of-is_served r k s k, same_refl k);
          })
  ]

  if-Turn :
      (k : Cid) (s : Sender Cid Peer) (t : Bool) (a b : Sender Cid Peer × Map Peer (WantSets S))
      → (t ≡ true → Turn k s a.0)
      → (t ≡ false → Turn k s b.0)
      → Turn k s (if t then a else b).0
  if-Turn k s true a b l r = l refl
  if-Turn k s false a b l r = r refl

  -- the other cases of a turn
  send_next-Turn :
      (newly : List Peer) (k : Cid) (s : Sender Cid Peer) (aw : Map Peer (WantSets S))
      → Turn k s (send_next newly k s aw).0
  unfolding is_served send_next
  send_next-Turn newly k s aw = elim (Option-cases (lookup k s.wants)) [
    | inl e ↦ rw (send_next, e) (idle k s (λ h. ground arith))
    | inr (wi, e) ↦
        rw (send_next, e)
          (if-Turn k s s.proxy (s, plan_haves s.peers.peers k (plan_haves newly k aw))
            (if is_some wi.sent_to then (s, aw) else send_block k wi s aw) (λ h. idle k s (λ f. cc))
            (λ h.
              if-Turn k s (is_some wi.sent_to) (s, aw) (send_block k wi s aw)
                (λ t. idle k s (λ f. ground arith)) (λ t. send_block-Turn k wi s aw e)))
  ]

  send_each-Served :
      (newly : List Peer) (ks : List Cid) (s : Sender Cid Peer) (aw : Map Peer (WantSets S))
      → Served ks s (send_each newly ks s aw).0
  unfolding send_each
  send_each-Served newly [] s aw = record {
    same_proxy = refl;
    same_peers = refl;
    same_keys = λ c. refl;
    stays = λ c h. h;
    fresh = λ h. h;
    served = λ f c h. cc;
  }
  send_each-Served newly (k ∷ ks) s aw =
      let (s', aw') = send_next newly k s aw in
      let t = send_next-Turn newly k s aw in
      let r = send_each-Served newly ks s' aw' in
      record {
        same_proxy = r.same_proxy ∙ t.same_proxy;
        same_peers = r.same_peers ∙ t.same_peers;
        same_keys = λ c. r.same_keys c ∙ t.same_keys c;
        stays = λ c h. r.stays c (t.stays c h);
        fresh = λ h. r.fresh (t.fresh h);
        served = λ f c h. elim (Bool-cases (same k c)) [
          | inl e ↦ r.stays c (ground (arith, t.served f, eq_of_same k c))
          | inr e ↦ r.served (t.same_proxy ∙ f) c (ground arith)
        ];
      }

module _ {Cid Peer : Type 0} (S : Type 0) ⦃ck : Key Cid⦄ ⦃pk : Key Peer⦄ ⦃sets : SetOps Cid S⦄ where
  pub send_next_wants-has_key :
      (newly : List Peer) (s : Sender Cid Peer) (c : Cid)
      → has_key c (send_next_wants S newly s).0.wants ≡ has_key c s.wants
  unfolding send_next_wants
  send_next_wants-has_key newly s c =
      let (s', aw) = send_each {S = S} newly (keys s.wants) s [] in
      rw (send_wants-wants aw s') ((send_each-Served {S = S} newly (keys s.wants) s []).same_keys c)

  pub send_next_wants-AllFresh :
      (newly : List Peer) (s : Sender Cid Peer)
      → AllFresh s
      → AllFresh (send_next_wants S newly s).0
  unfolding send_next_wants
  send_next_wants-AllFresh newly s h =
      let (s', aw) = send_each {S = S} newly (keys s.wants) s [] in
      let f = (send_each-Served {S = S} newly (keys s.wants) s []).fresh h in
      rw (send_wants-wants aw s') f

  -- a want waits for a peer, or it has no best peer to ask
  pub send_next_wants-is_served :
      (newly : List Peer) (s : Sender Cid Peer) (c : Cid)
      → s.proxy ≡ false
      → is_served c (send_next_wants S newly s).0 ≡ true
  unfolding send_next_wants
  send_next_wants-is_served newly s c f =
      let (s', aw) = send_each {S = S} newly (keys s.wants) s [] in
      let r = send_each-Served {S = S} newly (keys s.wants) s [] in
      let e = is_served-wants c (send_wants aw s').0 s' (send_wants-wants aw s') in
      elim (Bool-cases (has_key c s.wants)) [
        | inl h ↦ e ∙ r.served f c (contains-keys c s.wants ∙ h)
        | inr h ↦ e ∙ missing-is_served c s' (r.same_keys c ∙ h)
      ]

-- ===== src/SessionSender/Less.antt =====
-- What the handlers of bitswap/client/internal/session/sessionwantsender.go leave alone: they add no
-- want and ask no peer. Only `trackWant` adds wants, and only `sendNextWants` asks peers.
use boxo.Base.{
  Bool, true, false, none, some, Key, same, if◌then◌else◌, arith, ◌≡◌, subst, refl, inl, inr,
  Bool-cases, Option-cases,
}
use boxo.Base.Map.{HasDistinctKeys, lookup, has_key, modify, lookup-modify, lookup-delete}
use boxo.SessionPeers
use boxo.SessionSender.{WantInfo, Sender}
use boxo.SessionSender.Best.{IsBest}
use boxo.SessionSender.Infos.{is_sent_to}
use boxo.SessionSender.Wants.{untrack_want, reset_count}

module _ {Peer : Type 0} ⦃pk : Key Peer⦄ where
  -- The best peer of the want is one by its block presences, one for each peer.
  pub record IsFresh (wi : WantInfo Peer) : Type 0 where
    pub distinct : HasDistinctKeys wi.block_presence
    pub is_best : IsBest wi.block_presence wi.best_peer

  -- a change of one want that asks no peer and keeps the best peer a best one
  pub record Harmless (f : WantInfo Peer → WantInfo Peer) : Type 0 where
    pub asks_none :
        (p : Peer) (wi : WantInfo Peer) → is_sent_to p (f wi) ≡ true → is_sent_to p wi ≡ true
    pub keeps_fresh : (wi : WantInfo Peer) → IsFresh wi → IsFresh (f wi)

module _ {Cid Peer : Type 0} ⦃ck : Key Cid⦄ ⦃pk : Key Peer⦄ where
  -- whether the want waits for an answer of the peer
  unfoldable pub waits_for : Cid → Peer → Sender Cid Peer → Bool
  unfolding is_sent_to
  waits_for c p s = elim (lookup c s.wants) [ none ↦ false | some wi ↦ is_sent_to p wi ]

  abbrev pub AllFresh : Sender Cid Peer → Type 0
  AllFresh s = (c : Cid) (wi : WantInfo Peer) → lookup c s.wants ≡ some wi → IsFresh wi

  -- No want is asked of a peer that was not before, and the best peers stay best ones.
  pub record Calm (s s' : Sender Cid Peer) : Type 0 where
    pub waits : (c : Cid) (p : Peer) → waits_for c p s' ≡ true → waits_for c p s ≡ true
    pub sent : s'.sent_want_blocks ≡ s.sent_want_blocks
    pub proxy_kept : s'.proxy ≡ s.proxy
    pub fresh : AllFresh s → AllFresh s'

  -- There is no new want either.
  pub record Less (s s' : Sender Cid Peer) : Type 0 where
    pub calm : Calm s s'
    pub fewer : (c : Cid) → has_key c s'.wants ≡ true → has_key c s.wants ≡ true

  pub Calm-refl : (s : Sender Cid Peer) → Calm s s
  Calm-refl s = record { waits = λ c p h. h; sent = refl; proxy_kept = refl; fresh = λ h. h }

  pub Calm-trans : (a b c : Sender Cid Peer) → Calm a b → Calm b c → Calm a c
  Calm-trans a b c l r = record {
    waits = λ k p h. l.waits k p (r.waits k p h);
    sent = cc;
    proxy_kept = cc;
    fresh = λ h. r.fresh (l.fresh h);
  }

  pub Less-refl : (s : Sender Cid Peer) → Less s s
  Less-refl s = record { calm = Calm-refl s; fewer = λ c h. h }

  pub Less-trans : (a b c : Sender Cid Peer) → Less a b → Less b c → Less a c
  Less-trans a b c l r = record {
    calm = Calm-trans a b c l.calm r.calm;
    fewer = λ k h. l.fewer k (r.fewer k h);
  }

  pub modify-AllFresh :
      (c : Cid) (f : WantInfo Peer → WantInfo Peer) (s : Sender Cid Peer)
      → ((wi : WantInfo Peer) → IsFresh wi → IsFresh (f wi))
      → AllFresh s
      → AllFresh (record s { wants = modify c f s.wants })
  modify-AllFresh c f s keeps h k wi e = elim (Option-cases (lookup k s.wants)) [
    | inl n ↦ ground (arith, lookup-modify c k f s.wants)
    | inr (old, o) ↦
        let m = lookup-modify c k f s.wants in
        elim (Bool-cases (same c k)) [
          | inl t ↦ subst IsFresh (ground (arith, m)) (keeps old (h k old o))
          | inr t ↦ subst IsFresh (ground (arith, m)) (h k old o)
        ]
  ]

  pub modify-Less :
      (c : Cid) (f : WantInfo Peer → WantInfo Peer) (s : Sender Cid Peer)
      → Harmless f
      → Less s (record s { wants = modify c f s.wants })
  unfolding waits_for
  modify-Less c f s h = record {
    calm = record {
      waits = λ k p w. elim (Option-cases (lookup k s.wants)) [
        | inl e ↦ ground (arith, lookup-modify c k f s.wants)
        | inr (wi, e) ↦ ground (arith, lookup-modify c k f s.wants, h.asks_none p wi)
      ];
      sent = refl;
      proxy_kept = refl;
      fresh = modify-AllFresh c f s h.keeps_fresh;
    };
    fewer = λ k w. ground (arith, lookup-modify c k f s.wants);
  }

  pub if-Less :
      {s a b : Sender Cid Peer} (t : Bool) → Less s a → Less s b → Less s (if t then a else b)
  if-Less true l r = l
  if-Less false l r = r

  pub if-Calm :
      {s a b : Sender Cid Peer} (t : Bool) → Calm s a → Calm s b → Calm s (if t then a else b)
  if-Calm true l r = l
  if-Calm false l r = r

  pub peers-Less :
      (m : SessionPeers.Manager Peer) (s : Sender Cid Peer) → Less s (record s { peers = m })
  unfolding waits_for
  peers-Less m s = record {
    calm = record { waits = λ c q h. h; sent = refl; proxy_kept = refl; fresh = λ h. h };
    fewer = λ c h. h;
  }

  pub untrack_want-Less : (c : Cid) (s : Sender Cid Peer) → Less s (untrack_want c s)
  unfolding untrack_want waits_for
  untrack_want-Less c s = record {
    calm = record {
      waits = λ k p w. ground (arith, lookup-delete c k s.wants);
      sent = refl;
      proxy_kept = refl;
      fresh = λ h k wi e. h k wi (ground (arith, lookup-delete c k s.wants));
    };
    fewer = λ k w. ground (arith, lookup-delete c k s.wants);
  }

  pub reset_count-Less : (p : Peer) (s : Sender Cid Peer) → Less s (reset_count p s)
  unfolding reset_count waits_for
  reset_count-Less p s =
      if-Less s.proxy
        (record {
          calm = record { waits = λ c q h. h; sent = refl; proxy_kept = refl; fresh = λ h. h };
          fewer = λ c h. h;
        })
        (Less-refl s)

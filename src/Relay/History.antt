-- ===== src/Relay/History.antt =====
-- The relay manager through any sequence of calls.
use boxo.Base.{
  Bool, true, false, Option, some, List, [], ◌∷◌, Key, arith, ◌≡◌, refl, ◌∙◌, eq_of_same,
  Option-cases, inl, inr, ◌≢◌,
}
use boxo.Base.Nested.{get2-put2}
use boxo.Relay.{
  forward_haves, unprotect, Answers, RelayManager, prepare, already_sent_to, note_route,
  process_forwards, forward_search, proxy_discovery, process_forward_haves,
}
use boxo.Relay.Routes.{
  relayed_to, IsTraceable, Excludes, prepare-same, prepare-IsTraceable, note_route-IsTraceable,
}
use boxo.Relay.Return.{
  AllExclude, process_forwards-Grows, process_forwards-IsTraceable, prepare-self, return_haves_lem,
}

-- The calls that change the maps, with what the world answers to them.
pub data Call (Cid Peer Addr : Type 0) : Type 0 where
  forwards : Peer → List (Cid × Answers Peer) → Call Cid Peer Addr
  search_for : Cid → Answers Peer → Call Cid Peer Addr
  discovers : Peer → Cid → Option Addr → Option Cid → Bool → Call Cid Peer Addr

module _ {Cid Peer : Type 0} ⦃ck : Key Cid⦄ ⦃pk : Key Peer⦄ where
  -- What a call keeps: that wants can be traced, this peer's identity, and the routes of the others.
  pub record Safe (rm rm' : RelayManager Cid Peer) : Type 0 where
    pub traceable : IsTraceable rm'
    pub itself : rm'.self ≡ rm.self
    pub routes :
        (d : Cid) (s to : Peer)
        → s ≢ rm.self
        → relayed_to rm d s ≡ some to
        → relayed_to rm' d s ≡ some to

module _ (Addr : Type 0) {Cid Peer : Type 0} ⦃ck : Key Cid⦄ ⦃pk : Key Peer⦄ where
  search-Safe :
      (rm : RelayManager Cid Peer) (c : Cid) (a : Answers Peer)
      → Excludes a
      → IsTraceable rm
      → Safe rm (forward_search {Addr = Addr} rm c a).0
  unfolding forward_search note_route
  search-Safe rm c a x t = elim (Option-cases (a.forwarded (already_sent_to (prepare rm c) c))) [
    | inl e ↦
        rw (e, forward_search)
          (record {
            traceable = prepare-IsTraceable rm c t;
            itself = prepare-self rm c;
            routes = λ d s to _ h. ground (arith, h, prepare-same rm c d s);
          })
    | inr (p, e) ↦
        rw (e, forward_search)
          (record {
            traceable =
                note_route-IsTraceable (prepare rm c) c (prepare rm c).self p (x _ p e)
                  (prepare-IsTraceable rm c t);
            itself = prepare-self rm c;
            routes = λ d s to other h. ground (
              arith,
              h,
              other,
              prepare-same rm c d s,
              prepare-self rm c,
              get2-put2 c d (prepare rm c).self s p (prepare rm c).from_map,
              eq_of_same (prepare rm c).self s,
            );
          })
  ]

module _ {Cid Peer Addr : Type 0} ⦃ck : Key Cid⦄ ⦃pk : Key Peer⦄ where
  pub step : RelayManager Cid Peer → Call Cid Peer Addr → RelayManager Cid Peer
  step rm (forwards source cs) = (process_forwards {Addr = Addr} rm source cs).0
  step rm (search_for c a) = (forward_search {Addr = Addr} rm c a).0
  step rm (discovers to c provider received closed) =
      (proxy_discovery rm to c provider received closed).0

  pub run : RelayManager Cid Peer → List (Call Cid Peer Addr) → RelayManager Cid Peer
  run rm [] = rm
  run rm (call ∷ calls) = run (step rm call) calls

  -- In all calls the forwarder keeps to the excluded peers.
  abbrev pub Keeps : Call Cid Peer Addr → Type 0
  Keeps (forwards source cs) = AllExclude cs
  Keeps (search_for c a) = Excludes a
  Keeps (discovers to c provider received closed) = Unit {0}

  abbrev pub AllKeep : List (Call Cid Peer Addr) → Type 0
  AllKeep [] = Unit {0}
  AllKeep (call ∷ calls) = Keeps call × AllKeep calls

  step-Safe :
      (rm : RelayManager Cid Peer) (call : Call Cid Peer Addr)
      → Keeps call
      → IsTraceable rm
      → Safe rm (step rm call)
  unfolding step proxy_discovery
  step-Safe rm (forwards source cs) k t =
      let grows = process_forwards-Grows Addr rm source cs k in
      record {
        traceable = process_forwards-IsTraceable Addr rm source cs k t;
        itself = grows.itself;
        routes = λ d s to _ h. grows.routes d s to h;
      }
  step-Safe rm (search_for c a) k t = search-Safe Addr rm c a k t
  step-Safe rm (discovers to c provider received true) k t = record {
    traceable = record { back = t.back };
    itself = refl;
    routes = λ d s p _ h. h;
  }
  step-Safe rm (discovers to c provider received false) k t = record {
    traceable = record { back = t.back };
    itself = refl;
    routes = λ d s p _ h. h;
  }

  run-Safe :
      (rm : RelayManager Cid Peer) (calls : List (Call Cid Peer Addr))
      → AllKeep calls
      → IsTraceable rm
      → Safe rm (run rm calls)
  unfolding run
  run-Safe rm [] k t = record { traceable = t; itself = refl; routes = λ d s to _ h. h }
  run-Safe rm (call ∷ calls) k t =
      let one = step-Safe rm call k.0 t in
      let rest = run-Safe (step rm call) calls k.1 one.traceable in
      record {
        traceable = rest.traceable;
        itself = rest.itself ∙ one.itself;
        routes = λ d s to other h.
            rest.routes d s to (λ e. other (e ∙ one.itself)) (one.routes d s to other h);
      }

  -- Through every sequence of want-forwards, own searches and proxy discoveries, in which the
  -- forwarder keeps to the excluded peers, each route can be traced back from its receiver, if each
  -- could before.
  pub run-IsTraceable :
      (rm : RelayManager Cid Peer) (calls : List (Call Cid Peer Addr))
      → AllKeep calls
      → IsTraceable rm
      → IsTraceable (run rm calls)
  run-IsTraceable rm calls k t = (run-Safe rm calls k t).traceable

  -- A want of another peer that was once relayed to a peer gets its answer: after every sequence of
  -- want-forwards, own searches and proxy discoveries, in which the forwarder keeps to the excluded
  -- peers, a forward-have from that peer is sent to the source of the want, with its providers, and
  -- to nobody else; and the source is no longer protected. Each route can be traced back before.
  pub forward_have_returns :
      (rm : RelayManager Cid Peer) (calls : List (Call Cid Peer Addr)) (c : Cid) (source to : Peer)
      (providers : List Addr)
      → AllKeep calls
      → IsTraceable rm
      → source ≢ rm.self
      → relayed_to rm c source ≡ some to
      → process_forward_haves (run rm calls) to ((c, providers) ∷ [])
        ≡ forward_haves source c providers ∷ unprotect source c ∷ []
  unfolding process_forward_haves
  forward_have_returns rm calls c source to providers k t other h =
      let safe = run-Safe rm calls k t in
      ground (
        arith,
        return_haves_lem Addr (run rm calls) c source to providers safe.traceable
            (safe.routes c source to other h),
        safe.itself,
        other,
        eq_of_same source (run rm calls).self,
      )

-- ===== src/Relay/Return.antt =====
-- From a want-forward to the forward-have that answers it, through any calls in between.
use boxo.Base.{
  Bool, true, ◌||◌, some, List, [], ◌∷◌, Key, same, if◌then◌else◌, arith, ◌≡◌, refl, ◌∙◌,
  eq_of_same, is_some, same_refl,
}
use boxo.Base.Nested.{get2-put2}
use boxo.Relay.{
  forward_haves, unprotect, Answers, RelayManager, prepare, note_route, process_forward,
  process_forwards, return_haves, relay_haves,
}
use boxo.Relay.Routes.{
  relayed_to, is_proxied, IsTraceable, Excludes, Outcome, stays, proxied, routed, prepare-same,
  prepare-IsTraceable, Outcome-IsTraceable, choose_phase-Outcome,
}

module _ {Cid Peer : Type 0} ⦃ck : Key Cid⦄ ⦃pk : Key Peer⦄ where
  -- The source's want for the CID is proxied, or relayed to a peer.
  abbrev pub is_handled : RelayManager Cid Peer → Cid → Peer → Bool
  is_handled rm c source = is_proxied rm c source || is_some (relayed_to rm c source)

  Outcome-handles :
      (rm : RelayManager Cid Peer) (source : Peer) (c : Cid) {rm' : RelayManager Cid Peer}
      → Outcome rm source c rm'
      → is_handled rm' c source ≡ true
  unfolding note_route
  Outcome-handles rm source c (stays e h) = rw e h
  Outcome-handles rm source c (proxied e) =
      rw e (
        ground
          (arith, get2-put2 c c source source true rm.proxy_map, same_refl c, same_refl source))
  Outcome-handles rm source c (routed to _ _ e) =
      rw (e, note_route)
        (ground (arith, get2-put2 c c source source to rm.from_map, same_refl c, same_refl source))

  -- A want that is handled stays so, and a route stays the same.
  Outcome-keeps :
      (rm : RelayManager Cid Peer) (source : Peer) (c : Cid) {rm' : RelayManager Cid Peer} (d : Cid)
      (s : Peer)
      → Outcome rm source c rm'
      → (is_handled rm d s ≡ true → is_handled rm' d s ≡ true)
        × ((to : Peer) → relayed_to rm d s ≡ some to → relayed_to rm' d s ≡ some to)
        × (rm'.self ≡ rm.self)
  unfolding note_route
  Outcome-keeps rm source c d s (stays e h) = rw e (λ k. k, λ to k. k, refl)
  Outcome-keeps rm source c d s (proxied e) =
      rw e (λ k. ground (arith, k, get2-put2 c d source s true rm.proxy_map), λ to k. k, refl)
  Outcome-keeps rm source c d s (routed to new_source _ e) =
      let law = get2-put2 c d source s to rm.from_map in
      rw (e, note_route)
        (
          λ k. ground (arith, k, law),
          λ p k. ground (arith, k, law, new_source, eq_of_same c d, eq_of_same source s),
          refl,
        )

  pub prepare-self : (rm : RelayManager Cid Peer) (c : Cid) → (prepare rm c).self ≡ rm.self
  unfolding prepare
  prepare-self rm c = refl

  abbrev pub firsts : List (Cid × Answers Peer) → List Cid
  firsts [] = []
  firsts ((c, a) ∷ cs) = c ∷ firsts cs

  abbrev pub AllExclude : List (Cid × Answers Peer) → Type 0
  AllExclude [] = Unit {0}
  AllExclude ((c, a) ∷ cs) = Excludes a × AllExclude cs

  -- What the maps keep when CIDs are processed: routes, handled wants, and being traceable.
  pub record Grows (rm rm' : RelayManager Cid Peer) : Type 0 where
    pub handled : (d : Cid) (s : Peer) → is_handled rm d s ≡ true → is_handled rm' d s ≡ true
    pub routes :
        (d : Cid) (s to : Peer) → relayed_to rm d s ≡ some to → relayed_to rm' d s ≡ some to
    pub itself : rm'.self ≡ rm.self

  pub Grows-refl : (rm : RelayManager Cid Peer) → Grows rm rm
  Grows-refl rm = record { handled = λ d s h. h; routes = λ d s to h. h; itself = refl }

  pub Grows-trans : (r s t : RelayManager Cid Peer) → Grows r s → Grows s t → Grows r t
  Grows-trans r s t g h = record {
    handled = λ d p k. h.handled d p (g.handled d p k);
    routes = λ d p to k. h.routes d p to (g.routes d p to k);
    itself = h.itself ∙ g.itself;
  }

module _ (Addr : Type 0) {Cid Peer : Type 0} ⦃ck : Key Cid⦄ ⦃pk : Key Peer⦄ where
  process_forward-Outcome :
      (rm : RelayManager Cid Peer) (source : Peer) (c : Cid) (a : Answers Peer)
      → Excludes a
      → Outcome (prepare rm c) source c (process_forward {Addr = Addr} rm source c a).0
  unfolding process_forward
  process_forward-Outcome rm source c a x = choose_phase-Outcome Addr (prepare rm c) source c a x

  process_forward-Grows :
      (rm : RelayManager Cid Peer) (source : Peer) (c : Cid) (a : Answers Peer)
      → Excludes a
      → let rm' = (process_forward {Addr = Addr} rm source c a).0 in
        Grows rm rm' × (is_handled rm' c source ≡ true)
  process_forward-Grows rm source c a x =
      let done = process_forward-Outcome rm source c a x in
      (
        record {
          handled = λ d s h.
              (Outcome-keeps (prepare rm c) source c d s done).0
                (ground (arith, h, prepare-same rm c d s));
          routes = λ d s to h.
              (Outcome-keeps (prepare rm c) source c d s done).1 to
                (ground (arith, h, prepare-same rm c d s));
          itself = (Outcome-keeps (prepare rm c) source c c source done).2 ∙ prepare-self rm c;
        },
        Outcome-handles (prepare rm c) source c done,
      )

  pub process_forwards-Grows :
      (rm : RelayManager Cid Peer) (source : Peer) (cs : List (Cid × Answers Peer))
      → AllExclude cs
      → Grows rm (process_forwards {Addr = Addr} rm source cs).0
  unfolding process_forwards
  process_forwards-Grows rm source [] x = Grows-refl rm
  process_forwards-Grows rm source ((c, a) ∷ cs) x =
      let rm' = (process_forward {Addr = Addr} rm source c a).0 in
      Grows-trans rm rm' _ (process_forward-Grows rm source c a x.0).0
        (process_forwards-Grows rm' source cs x.1)

  pub process_forwards-IsTraceable :
      (rm : RelayManager Cid Peer) (source : Peer) (cs : List (Cid × Answers Peer))
      → AllExclude cs
      → IsTraceable rm
      → IsTraceable (process_forwards {Addr = Addr} rm source cs).0
  unfolding process_forwards
  process_forwards-IsTraceable rm source [] x t = t
  process_forwards-IsTraceable rm source ((c, a) ∷ cs) x t =
      process_forwards-IsTraceable (process_forward {Addr = Addr} rm source c a).0 source cs x.1 (
        Outcome-IsTraceable Addr (prepare rm c) source c (process_forward-Outcome rm source c a x.0)
          (prepare-IsTraceable rm c t))

  -- A forward-have from the receiver of a relayed want goes to the source of that want, which is
  -- then no longer protected; if the source is this peer itself, nothing is sent.
  pub return_haves_lem :
      (rm : RelayManager Cid Peer) (c : Cid) (source to : Peer) (providers : List Addr)
      → IsTraceable rm
      → relayed_to rm c source ≡ some to
      → return_haves rm to c providers ≡ (
          if same source rm.self
          then []
          else forward_haves source c providers ∷ unprotect source c ∷ [])
  unfolding return_haves relay_haves
  return_haves_lem rm c source to providers t h = rw (t.back c source to h, return_haves)

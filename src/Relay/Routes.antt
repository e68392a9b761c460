-- ===== src/Relay/Routes.antt =====
-- The routes of relayed wants: source to receiver in one map, receiver to source in the other.
use boxo.Base.{
  Bool, true, false, ◌||◌, Option, none, some, List, ◌∷◌, Key, contains, or_default, arith, ◌≡◌,
  refl, sym, ◌∙◌, inl, inr, eq_of_same, Option-cases, Bool-cases, is_some, same_refl,
}
use boxo.Base.Map.{contains-values}
use boxo.Base.Nested.{get2, put2, inner, get2-put2, get2-ensure, get2_lem}
use boxo.Relay.{
  Answers, RelayManager, prepare, start_proxy_phase, already_sent_to, note_route, relay_again,
  relay_further, choose_phase,
}

module _ {Cid Peer : Type 0} ⦃ck : Key Cid⦄ ⦃pk : Key Peer⦄ where
  abbrev pub relayed_to : RelayManager Cid Peer → Cid → Peer → Option Peer
  relayed_to rm c source = get2 c source rm.from_map

  abbrev pub source_of : RelayManager Cid Peer → Cid → Peer → Option Peer
  source_of rm c to = get2 c to rm.to_map

  abbrev pub is_proxied : RelayManager Cid Peer → Cid → Peer → Bool
  is_proxied rm c source = or_default false (get2 c source rm.proxy_map)

  -- Each relayed want can be traced back from its receiver.
  pub record IsTraceable (rm : RelayManager Cid Peer) : Type 0 where
    pub back :
        (c : Cid) (source to : Peer)
        → relayed_to rm c source ≡ some to
        → source_of rm c to ≡ some source

  pub already_sent_to-contains :
      (rm : RelayManager Cid Peer) (c : Cid) (source to : Peer)
      → relayed_to rm c source ≡ some to
      → contains to (already_sent_to rm c) ≡ true
  unfolding already_sent_to
  already_sent_to-contains rm c source to h =
      contains-values source to (inner c rm.from_map) (sym (get2_lem c source rm.from_map) ∙ h)

  -- A route to a peer that no want of the CID was sent to before spoils no other route.
  pub note_route-IsTraceable :
      (rm : RelayManager Cid Peer) (c : Cid) (source to : Peer)
      → contains to (already_sent_to rm c) ≡ false
      → IsTraceable rm
      → IsTraceable (note_route rm c source to)
  unfolding note_route
  note_route-IsTraceable rm c source to new_peer t = record {
    back = λ d s p h. ground (
      arith,
      h,
      t.back d s p,
      get2-put2 c d source s to rm.from_map,
      get2-put2 c d to p source rm.to_map,
      already_sent_to-contains rm c s p,
      eq_of_same c d,
      eq_of_same source s,
      eq_of_same to p,
      same_refl to,
    );
  }

  pub prepare-same :
      (rm : RelayManager Cid Peer) (c d : Cid) (p : Peer)
      → (relayed_to (prepare rm c) d p ≡ relayed_to rm d p)
        × (source_of (prepare rm c) d p ≡ source_of rm d p)
        × (is_proxied (prepare rm c) d p ≡ is_proxied rm d p)
  unfolding prepare
  prepare-same rm c d p = (
    get2-ensure c d p rm.from_map,
    get2-ensure c d p rm.to_map,
    ground (arith, get2-ensure c d p rm.proxy_map),
  )

  pub prepare-IsTraceable :
      (rm : RelayManager Cid Peer) (c : Cid) → IsTraceable rm → IsTraceable (prepare rm c)
  prepare-IsTraceable rm c t = record {
    back = λ d s p h. ground (arith, h, t.back d s p, prepare-same rm c d s, prepare-same rm c d p);
  }

module _ {Peer : Type 0} ⦃pk : Key Peer⦄ where
  -- The forwarder keeps to the excluded peers.
  abbrev pub Excludes : Answers Peer → Type 0
  Excludes a = (xs : List Peer) (p : Peer) → a.forwarded xs ≡ some p → contains p xs ≡ false

-- What the processing of one want-forward may do to the maps: nothing, if the source's want is
-- proxied or relayed already; mark it as proxied; or relay it to a peer that is not the source and
-- was sent no want for the CID.
pub data Outcome {Cid Peer : Type 0} ⦃ck : Key Cid⦄ ⦃pk : Key Peer⦄ (rm : RelayManager Cid Peer)
    (source : Peer) (c : Cid) (rm' : RelayManager Cid Peer) : Type 0 where
  stays :
      rm' ≡ rm
      → (is_proxied rm c source || is_some (relayed_to rm c source)) ≡ true
      → Outcome rm source c rm'
  proxied :
      rm' ≡ record rm { proxy_map = put2 c source true rm.proxy_map } → Outcome rm source c rm'
  routed :
      (to : Peer)
      → relayed_to rm c source ≡ none
      → contains to (source ∷ already_sent_to rm c) ≡ false
      → rm' ≡ note_route rm c source to
      → Outcome rm source c rm'

module _ (Addr : Type 0) {Cid Peer : Type 0} ⦃ck : Key Cid⦄ ⦃pk : Key Peer⦄ where
  relay_further-Outcome :
      (rm : RelayManager Cid Peer) (source : Peer) (c : Cid) (a : Answers Peer)
      → Excludes a
      → relayed_to rm c source ≡ none
      → Outcome rm source c (relay_further {Addr = Addr} rm source c a).0
  unfolding relay_further start_proxy_phase
  relay_further-Outcome rm source c a x new_source =
      elim (Option-cases (a.forwarded (source ∷ already_sent_to rm c))) [
        | inl e ↦ rw (e, relay_further) (proxied refl)
        | inr (to, e) ↦ rw (e, relay_further) (routed to new_source (x _ to e) refl)
      ]

  pub choose_phase-Outcome :
      (rm : RelayManager Cid Peer) (source : Peer) (c : Cid) (a : Answers Peer)
      → Excludes a
      → Outcome rm source c (choose_phase {Addr = Addr} rm source c a).0
  unfolding choose_phase relay_again start_proxy_phase
  choose_phase-Outcome rm source c a x = elim (Bool-cases (is_proxied rm c source)) [
    | inl old ↦ rw (old, choose_phase) (stays refl (ground (arith, old)))
    | inr new_want ↦ elim (Option-cases (relayed_to rm c source)) [
      | inr (to, e) ↦ elim (Bool-cases (a.resend_fails to)) [
        | inl fails ↦ rw (new_want, e, fails, choose_phase, relay_again) (proxied refl)
        | inr sends ↦
            rw (new_want, e, sends, choose_phase, relay_again) (stays refl (ground (arith, e)))
      ]
      | inl e ↦ elim (Bool-cases a.transits) [
        | inl transits ↦ rw (new_want, e, transits, choose_phase) (proxied refl)
        | inr goes_on ↦
            rw (new_want, e, goes_on, choose_phase) (relay_further-Outcome rm source c a x e)
      ]
    ]
  ]

  pub Outcome-IsTraceable :
      (rm : RelayManager Cid Peer) (source : Peer) (c : Cid) {rm' : RelayManager Cid Peer}
      → Outcome rm source c rm'
      → IsTraceable rm
      → IsTraceable rm'
  Outcome-IsTraceable rm source c (stays e _) t = rw e t
  Outcome-IsTraceable rm source c (proxied e) t = rw e (record { back = t.back })
  Outcome-IsTraceable rm source c (routed to _ fresh e) t =
      rw e (note_route-IsTraceable rm c source to (ground (arith, fresh)) t)

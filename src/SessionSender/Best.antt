-- ===== src/SessionSender/Best.antt =====
-- `calculateBestPeer` of bitswap/client/internal/session/sessionwantsender.go finds a best peer.
use boxo.Base.{
  ℕ, ◌≤◌, true, ◌&&◌, Option, none, some, List, [], ◌∷◌, Key, is_some, contains, ltb, leb, ◌==◌,
  arith, ◌≡◌, refl, ◌⊎◌, inl, inr, Bool-cases, Option-cases, eq_of_same, same_refl,
}
use boxo.Base.Map.{Map, lookup, HasDistinctKeys, contains-keys}
use boxo.SessionSender.{Presence, dont_have, unknown, have, Floats}
use boxo.SessionSender.Trackers.{choose, choose-contains, choose-is_some}
use boxo.SessionSender.Infos.{
  rank, Found, better_of, find_best, peers_with, not_found, best_of, presence_of,
}

pub rank_injective : (a b : Presence) → rank a ≡ rank b → a ≡ b
rank_injective dont_have dont_have h = refl
rank_injective unknown unknown h = refl
rank_injective have have h = refl
rank_injective dont_have unknown h = absurd (omega arith)
rank_injective dont_have have h = absurd (omega arith)
rank_injective unknown dont_have h = absurd (omega arith)
rank_injective unknown have h = absurd (omega arith)
rank_injective have dont_have h = absurd (omega arith)
rank_injective have unknown h = absurd (omega arith)

module _ {Peer : Type 0} where
  better_of_lem :
      (f : Found Peer) (p : Peer) (bp : Presence)
      → (rank f.best_bp ≤ rank (better_of f p bp).best_bp)
        × (rank bp ≤ rank (better_of f p bp).best_bp)
  unfolding better_of
  better_of_lem f p bp = ground arith

  better_of-cases :
      (f : Found Peer) (p : Peer) (bp : Presence)
      → (((better_of f p bp).best ≡ some p) × ((better_of f p bp).best_bp ≡ bp))
        ⊎ (((better_of f p bp).best ≡ f.best) × ((better_of f p bp).best_bp ≡ f.best_bp))
  unfolding better_of
  better_of-cases f p bp = ground arith

  -- A peer is found only with a presence above DONT_HAVE.
  abbrev IsSane : Found Peer → Type 0
  IsSane f = is_some f.best ≡ ltb 0 (rank f.best_bp)

  find_best-IsSane : (f : Found Peer) (m : Map Peer Presence) → IsSane f → IsSane (find_best f m)
  unfolding find_best better_of
  find_best-IsSane f [] h = h
  find_best-IsSane f ((p, bp) ∷ m) h = find_best-IsSane (better_of f p bp) m (ground arith)

module _ {Peer : Type 0} ⦃pk : Key Peer⦄ where
  find_best-bounds :
      (f : Found Peer) (m : Map Peer Presence) (q : Peer)
      → (rank f.best_bp ≤ rank (find_best f m).best_bp)
        × (rank (presence_of q m) ≤ rank (find_best f m).best_bp)
  unfolding find_best presence_of lookup
  find_best-bounds f [] q = (omega arith, omega arith)
  find_best-bounds f ((p, bp) ∷ m) q =
      ground (arith, better_of_lem f p bp, find_best-bounds (better_of f p bp) m q)

  -- The peer found has the presence found.
  find_best-found :
      (f : Found Peer) (m : Map Peer Presence) (p : Peer)
      → HasDistinctKeys m
      → (find_best f m).best ≡ some p
      → (lookup p m ≡ some (find_best f m).best_bp)
        ⊎ ((f.best ≡ some p) × (f.best_bp ≡ (find_best f m).best_bp))
  unfolding find_best lookup
  find_best-found f [] p d h = inr (h, refl)
  find_best-found f ((q, bp) ∷ m) p d h = elim (find_best-found (better_of f q bp) m p d.1 h) [
    | inl e ↦ inl (ground (arith, contains-keys q m, eq_of_same q p))
    | inr (e1, e2) ↦ elim (better_of-cases f q bp) [
      | inl (b1, b2) ↦ inl (ground (arith, same_refl p))
      | inr (b1, b2) ↦ inr (cc, cc)
    ]
  ]

  peers_with_lem :
      (b : Presence) (m : Map Peer Presence) (p : Peer)
      → HasDistinctKeys m
      → contains p (peers_with b m) ≡ (is_some (lookup p m) && rank (presence_of p m) == rank b)
  unfolding peers_with presence_of lookup
  peers_with_lem b [] p d = refl
  peers_with_lem b ((q, bp) ∷ m) p d =
      ground (arith, peers_with_lem b m p d.1, contains-keys q m, eq_of_same q p)

  -- No peer may have the block, or the peer may, and no other peer is more likely to have it.
  abbrev pub IsBest : Map Peer Presence → Option Peer → Type 0
  IsBest m none = (q : Peer) → rank (presence_of q m) ≡ 0
  IsBest m (some p) =
      (1 ≤ rank (presence_of p m)) × ((q : Peer) → rank (presence_of q m) ≤ rank (presence_of p m))

  found_presence :
      (m : Map Peer Presence) (p : Peer)
      → HasDistinctKeys m
      → (find_best not_found m).best ≡ some p
      → lookup p m ≡ some (find_best not_found m).best_bp
  found_presence m p d h = elim (find_best-found not_found m p d h) [
    | inl e ↦ e
    | inr (e1, e2) ↦ cc
  ]

  IsBest-of :
      (m : Map Peer Presence) (p : Peer)
      → presence_of p m ≡ (find_best not_found m).best_bp
      → is_some (find_best not_found m).best ≡ true
      → IsBest m (some p)
  IsBest-of m p e h = (
    ground (arith, find_best-IsSane not_found m refl),
    λ q. ground (arith, find_best-bounds not_found m q),
  )

  candidate_presence :
      (b : Presence) (m : Map Peer Presence) (p : Peer)
      → HasDistinctKeys m
      → contains p (peers_with b m) ≡ true
      → presence_of p m ≡ b
  candidate_presence b m p d h =
      rank_injective (presence_of p m) b (ground (arith, peers_with_lem b m p d))

module _ {Peer F : Type 0} ⦃pk : Key Peer⦄ ⦃fl : Floats F⦄ where
  -- A candidate is chosen, if there is one.
  choose_candidate :
      (responders : Map Peer ℕ) (rnd : F) (qs : List Peer) (p : Peer)
      → contains p qs ≡ true
      → (r : Peer) × (choose responders rnd qs ≡ some r) × (contains r qs ≡ true)
  choose_candidate responders rnd [] p h = cc
  choose_candidate responders rnd (q ∷ qs) p h =
      elim (Option-cases (choose responders rnd (q ∷ qs))) [
        | inl e ↦ ground (arith, choose-is_some responders rnd q qs)
        | inr (r, e) ↦ (r, e, choose-contains responders rnd (q ∷ qs) r e)
      ]

  chosen_presence :
      (responders : Map Peer ℕ) (draw : List Peer → F) (m : Map Peer Presence) (p : Peer)
      → HasDistinctKeys m
      → (find_best not_found m).best ≡ some p
      → (r : Peer) × (best_of responders draw m ≡ some r)
        × (presence_of r m ≡ (find_best not_found m).best_bp)
  unfolding best_of presence_of
  chosen_presence responders draw m p d e =
      let l = found_presence m p d e in
      let qs = peers_with (find_best not_found m).best_bp m in
      let (r, c, h) =
        choose_candidate responders (draw qs) qs p
          (ground (arith, peers_with_lem (find_best not_found m).best_bp m p d)) in
      elim (Bool-cases (leb (find_best not_found m).count_with_best 1)) [
        | inl one ↦ (p, rw (best_of, e, one) refl, ground arith)
        | inr more ↦
            (r, rw (best_of, e, more) c, candidate_presence (find_best not_found m).best_bp m r d h)
      ]

  best_of-none :
      (responders : Map Peer ℕ) (draw : List Peer → F) (m : Map Peer Presence)
      → (find_best not_found m).best ≡ none
      → best_of responders draw m ≡ none
  unfolding best_of
  best_of-none responders draw m e = rw (best_of, e) refl

  -- If the block presences of a want have one entry for each peer, then the peer that calculateBestPeer
  -- stores is one with the best block presence, and none is stored only if no peer is above DONT_HAVE.
  pub best_of-IsBest :
      (responders : Map Peer ℕ) (draw : List Peer → F) (m : Map Peer Presence)
      → HasDistinctKeys m
      → IsBest m (best_of responders draw m)
  best_of-IsBest responders draw m d = elim (Option-cases (find_best not_found m).best) [
    | inl e ↦
        rw (best_of-none responders draw m e)
          (λ q. ground (arith, find_best-IsSane not_found m refl, find_best-bounds not_found m q))
    | inr (p, e) ↦
        let (r, b, h) = chosen_presence responders draw m p d e in
        rw b (IsBest-of m r h (rw e refl))
  ]

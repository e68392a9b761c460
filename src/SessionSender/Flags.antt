-- ===== src/SessionSender/Flags.antt =====
-- `newlyExhausted` of bitswap/client/internal/session/sessionwantsender.go.
use boxo.Base.{
  not, ◌&&◌, List, [], ◌∷◌, Key, same, contains, arith, ◌≡◌, refl, inl, inr, Bool-cases,
  Option-cases, eq_of_same,
}
use boxo.Base.Map.{lookup, modify, lookup-modify}
use boxo.SessionSender.{Sender}
use boxo.SessionSender.Exhaustion.{set_exhausted, is_unflagged, newly_exhausted}

module _ {Cid Peer : Type 0} ⦃ck : Key Cid⦄ where
  is_unflagged-flag :
      (k : Cid) (s : Sender Cid Peer) (c : Cid)
      → is_unflagged c (record s { wants = modify k set_exhausted s.wants })
        ≡ (not (same k c) && is_unflagged c s)
  unfolding is_unflagged set_exhausted
  is_unflagged-flag k s c = elim (Option-cases (lookup c s.wants)) [
    | inl e ↦ ground (arith, lookup-modify k c set_exhausted s.wants)
    | inr (wi, e) ↦ ground (arith, lookup-modify k c set_exhausted s.wants)
  ]

  -- newlyExhausted returns the keys of wants that were not flagged as exhausted, and flags these wants and
  -- no others.
  pub newly_exhausted_lem :
      (ks : List Cid) (s : Sender Cid Peer) (c : Cid)
      → (contains c (newly_exhausted ks s).1 ≡ (contains c ks && is_unflagged c s))
        × (is_unflagged c (newly_exhausted ks s).0 ≡ (not (contains c ks) && is_unflagged c s))
  unfolding newly_exhausted
  newly_exhausted_lem [] s c = (refl, refl)
  newly_exhausted_lem (k ∷ ks) s c = elim (Bool-cases (is_unflagged k s)) [
    | inl e ↦
        let s' = record s { wants = modify k set_exhausted s.wants } in
        let (r, f) = newly_exhausted_lem ks s' c in
        let g = is_unflagged-flag k s c in
        (rw e (ground (arith, r, g, eq_of_same k c)), rw e (ground (arith, f, g)))
    | inr e ↦
        let (r, f) = newly_exhausted_lem ks s c in
        (rw e (ground (arith, r, eq_of_same k c)), rw e (ground (arith, f, eq_of_same k c)))
  ]

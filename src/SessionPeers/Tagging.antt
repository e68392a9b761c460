-- ===== src/SessionPeers/Tagging.antt =====
-- Which peers are tagged and protected, by what the connection manager is told.
use boxo.Base.{
  Bool, true, false, not, sym, ◌∙◌, arith, eq_of_same, ◌&&◌, ◌||◌, List, [], ◌∷◌, ◌++◌, Key, same,
  contains, ◌≡◌, refl, Bool-cases, inl, inr,
}
use boxo.Base.Sets.{contains-insert_key, contains-without}
use boxo.SessionPeers.{
  Effect, tag, untag, protect, unprotect, Manager, add_peer, protect_connection, remove_peer,
  untag_all, shutdown,
}

pub data Call (Peer : Type 0) : Type 0 where
  adds protects removes : Peer → Call Peer

module _ {Peer : Type 0} ⦃key : Key Peer⦄ where
  -- whether the peer is tagged after the effects, if it was or was not before
  unfoldable pub tagged : Peer → Bool → List (Effect Peer) → Bool
  tagged p b [] = b
  tagged p b (tag q ∷ es) = tagged p (same q p || b) es
  tagged p b (untag q ∷ es) = tagged p (not (same q p) && b) es
  tagged p b (_ ∷ es) = tagged p b es

  -- whether the peer is protected after the effects
  unfoldable pub protected : Peer → Bool → List (Effect Peer) → Bool
  protected p b [] = b
  protected p b (protect q ∷ es) = protected p (same q p || b) es
  protected p b (unprotect q ∷ es) = protected p (not (same q p) && b) es
  protected p b (_ ∷ es) = protected p b es

  unfoldable pub step : Manager Peer → Call Peer → Manager Peer × List (Effect Peer)
  step m (adds p) = let (m', isNew, es) = add_peer m p in (m', es)
  step m (protects p) = (m, protect_connection m p)
  step m (removes p) = let (m', was, es) = remove_peer m p in (m', es)

  unfoldable pub run : Manager Peer → List (Call Peer) → Manager Peer × List (Effect Peer)
  unfolding step
  run m [] = (m, [])
  run m (c ∷ cs) = let (m1, es1) = step m c in let (m2, es2) = run m1 cs in (m2, es1 ++ es2)

  tagged-append :
      (p : Peer) (b : Bool) (es fs : List (Effect Peer))
      → tagged p b (es ++ fs) ≡ tagged p (tagged p b es) fs
  unfolding tagged
  tagged-append p b [] fs = refl
  tagged-append p b (tag q ∷ es) fs = tagged-append p (same q p || b) es fs
  tagged-append p b (untag q ∷ es) fs = tagged-append p (not (same q p) && b) es fs
  tagged-append p b (protect q ∷ es) fs = tagged-append p b es fs
  tagged-append p b (unprotect q ∷ es) fs = tagged-append p b es fs

  protected-append :
      (p : Peer) (b : Bool) (es fs : List (Effect Peer))
      → protected p b (es ++ fs) ≡ protected p (protected p b es) fs
  unfolding protected
  protected-append p b [] fs = refl
  protected-append p b (protect q ∷ es) fs = protected-append p (same q p || b) es fs
  protected-append p b (unprotect q ∷ es) fs = protected-append p (not (same q p) && b) es fs
  protected-append p b (tag q ∷ es) fs = protected-append p b es fs
  protected-append p b (untag q ∷ es) fs = protected-append p b es fs

  add_peer-tagged :
      (m : Manager Peer) (p q : Peer)
      → tagged p (contains p m.peers) (step m (adds q)).1 ≡ contains p (step m (adds q)).0.peers
  unfolding step add_peer tagged
  add_peer-tagged m p q = elim (Bool-cases (contains q m.peers)) [
    | inl h ↦ rw h
    | inr h ↦ rw (h, contains-insert_key q p m.peers)
  ]

  remove_peer-tagged :
      (m : Manager Peer) (p q : Peer)
      → tagged p (contains p m.peers) (step m (removes q)).1
        ≡ contains p (step m (removes q)).0.peers
  unfolding step remove_peer tagged
  remove_peer-tagged m p q = elim (Bool-cases (contains q m.peers)) [
    | inl h ↦ rw (h, contains-without q p m.peers)
    | inr h ↦ rw h
  ]

  protect_connection-tagged :
      (m : Manager Peer) (p q : Peer)
      → tagged p (contains p m.peers) (step m (protects q)).1
        ≡ contains p (step m (protects q)).0.peers
  unfolding step protect_connection tagged
  protect_connection-tagged m p q = elim (Bool-cases (contains q m.peers)) [
    | inl h ↦ rw h
    | inr h ↦ rw h
  ]

  step-tagged :
      (m : Manager Peer) (c : Call Peer) (p : Peer)
      → tagged p (contains p m.peers) (step m c).1 ≡ contains p (step m c).0.peers
  step-tagged m (adds q) p = add_peer-tagged m p q
  step-tagged m (protects q) p = protect_connection-tagged m p q
  step-tagged m (removes q) p = remove_peer-tagged m p q

  -- No call protects a peer that is no member, and no member leaves protected.
  step-protected :
      (m : Manager Peer) (c : Call Peer) (p : Peer) (b : Bool)
      → (b ≡ true → contains p m.peers ≡ true)
      → protected p b (step m c).1 ≡ true
      → contains p (step m c).0.peers ≡ true
  unfolding step add_peer protect_connection remove_peer protected
  step-protected m (adds q) p b h k = ground (arith, h, k, contains-insert_key q p m.peers)
  step-protected m (protects q) p b h k = ground (arith, h, k, eq_of_same q p)
  step-protected m (removes q) p b h k =
      ground (arith, h, k, contains-without q p m.peers, eq_of_same q p)

  run-protected :
      (m : Manager Peer) (cs : List (Call Peer)) (p : Peer) (b : Bool)
      → (b ≡ true → contains p m.peers ≡ true)
      → protected p b (run m cs).1 ≡ true
      → contains p (run m cs).0.peers ≡ true
  unfolding run protected
  run-protected m [] p b h k = h k
  run-protected m (c ∷ cs) p b h k =
      let (m1, es1) = step m c in
      run-protected m1 cs p (protected p b es1) (step-protected m c p b h)
        (sym (protected-append p b es1 (run m1 cs).1) ∙ k)

  shutdown_lem :
      (ps : List Peer) (p : Peer) (b : Bool)
      → (tagged p b (untag_all ps) ≡ (b && not (contains p ps)))
        × (protected p b (untag_all ps) ≡ (b && not (contains p ps)))
  unfolding untag_all tagged protected
  shutdown_lem [] p b = ground arith
  shutdown_lem (q ∷ ps) p b = ground (arith, shutdown_lem ps p (not (same q p) && b))

  calls-tagged :
      (m : Manager Peer) (cs : List (Call Peer)) (p : Peer)
      → tagged p (contains p m.peers) (run m cs).1 ≡ contains p (run m cs).0.peers
  unfolding run tagged
  calls-tagged m [] p = refl
  calls-tagged m (c ∷ cs) p = rw (
    tagged-append p (contains p m.peers) (step m c).1 (run (step m c).0 cs).1,
    step-tagged m c p,
    calls-tagged (step m c).0 cs p,
  )

  -- Through any calls of AddPeer, ProtectConnection and RemovePeer, the peers that the session has
  -- tagged are exactly its members, if they were before. If Shutdown comes after these calls, then no
  -- peer is tagged, and none is protected, if none but members was protected before the calls.
  pub run-tagged :
      (m : Manager Peer) (cs : List (Call Peer)) (p : Peer) (b : Bool)
      → (b ≡ true → contains p m.peers ≡ true)
      → (tagged p (contains p m.peers) (run m cs).1 ≡ contains p (run m cs).0.peers)
        × (tagged p (contains p m.peers) ((run m cs).1 ++ shutdown (run m cs).0) ≡ false)
        × (protected p b ((run m cs).1 ++ shutdown (run m cs).0) ≡ false)
  unfolding shutdown
  run-tagged m cs p b h =
      let (m1, es) = run m cs in
      (
        calls-tagged m cs p,
        ground (
          arith,
          calls-tagged m cs p,
          tagged-append p (contains p m.peers) es (untag_all m1.peers),
          shutdown_lem m1.peers p (tagged p (contains p m.peers) es),
        ),
        ground (
          arith,
          run-protected m cs p b h,
          protected-append p b es (untag_all m1.peers),
          shutdown_lem m1.peers p (protected p b es),
        ),
      )

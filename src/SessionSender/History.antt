-- ===== src/SessionSender/History.antt =====
-- The event loop of bitswap/client/internal/session/sessionwantsender.go over its changes.
use boxo.Base.{
  Bool, true, false, ◌||◌, ◌&&◌, Option, none, some, List, [], ◌∷◌, ◌++◌, Key, if◌then◌else◌,
  contains, arith, ◌≡◌, refl, inl, inr, Bool-cases,
}
use boxo.Base.Map.{keys, modify}
use boxo.Base.Nested.{is_empty}
use boxo.SessionPeers.{has_peers}
use boxo.BlockPresence.{all_peers_do_not_have_block}
use boxo.SessionSender.{Sender, Effect, Update, Change, Floats, World}
use boxo.SessionSender.Infos.{is_sent_to}
use boxo.SessionSender.Wants.{track_want, untrack_want}
use boxo.SessionSender.Exhaustion.{
  set_exhausted, zero_cids, is_unflagged, newly_exhausted, process_exhausted_wants, check_wants,
  check_for_exhausted_wants,
}
use boxo.SessionSender.Changes.{
  Batch, track_all, untrack_all, note_update, note_availability, apply_change, apply_changes,
}
use boxo.SessionSender.Less.{
  Calm, Less, Harmless, Calm-refl, Calm-trans, Less-refl, Less-trans, modify-Less,
  untrack_want-Less, if-Less,
}
use boxo.SessionSender.Presences.{track_want-Calm}
use boxo.SessionSender.Receipts.{arrives}

module _ {Peer : Type 0} ⦃pk : Key Peer⦄ where
  set_exhausted-Harmless : Harmless {Peer = Peer} set_exhausted
  unfolding set_exhausted is_sent_to
  set_exhausted-Harmless = record {
    asks_none = λ p wi h. h;
    keeps_fresh = λ wi h. record { distinct = h.distinct; is_best = h.is_best };
  }

module _ {Cid Peer : Type 0} ⦃ck : Key Cid⦄ ⦃pk : Key Peer⦄ where
  newly_exhausted-Less : (ks : List Cid) (s : Sender Cid Peer) → Less s (newly_exhausted ks s).0
  unfolding newly_exhausted
  newly_exhausted-Less [] s = Less-refl s
  newly_exhausted-Less (c ∷ ks) s =
      let s' =
        if is_unflagged c s then record s { wants = modify c set_exhausted s.wants } else s in
      Less-trans s s' (newly_exhausted ks s').0
        (if-Less (is_unflagged c s) (modify-Less c set_exhausted s set_exhausted-Harmless)
          (Less-refl s))
        (newly_exhausted-Less ks s')

  process_exhausted-Less :
      (ks : List Cid) (s : Sender Cid Peer) → Less s (process_exhausted_wants ks s).0
  unfolding process_exhausted_wants
  process_exhausted-Less ks s = newly_exhausted-Less ks s

  if-first :
      (t : Bool) (s : Sender Cid Peer) (a b : Sender Cid Peer × List (Effect Cid Peer))
      → Less s a.0
      → Less s b.0
      → Less s (if t then a else b).0
  if-first true s a b l r = l
  if-first false s a b l r = r

module _ {Cid Peer F : Type 0} ⦃ck : Key Cid⦄ ⦃pk : Key Peer⦄ where
  check_wants-Less :
      (w : World Cid Peer F) (ks : List Cid) (s : Sender Cid Peer) → Less s (check_wants w ks s).0
  unfolding check_wants
  check_wants-Less w ks s =
      let ex = all_peers_do_not_have_block w.bpm s.peers.peers ks in
      if-first (is_empty ks) s (s, []) (process_exhausted_wants ex s) (Less-refl s)
        (process_exhausted-Less ex s)

  pub check_for-Less :
      (undef : Cid) (w : World Cid Peer F) (dont_haves : List Cid) (gone : List Peer)
      (s : Sender Cid Peer)
      → Less s (check_for_exhausted_wants undef w dont_haves gone s).0
  unfolding check_for_exhausted_wants
  check_for-Less undef w dont_haves gone s =
      let all = zero_cids undef s.wants ++ keys s.wants in
      let l = check_wants-Less w all s in
      let x = process_exhausted-Less all s in
      let last = if has_peers s.peers then check_wants w all s else process_exhausted_wants all s in
      if-first (is_empty dont_haves && is_empty gone) s (s, [])
        (if is_empty gone then check_wants w dont_haves s else last) (Less-refl s)
        (if-first (is_empty gone) s (check_wants w dont_haves s) last
          (check_wants-Less w dont_haves s)
          (if-first (has_peers s.peers) s (check_wants w all s) (process_exhausted_wants all s) l
            x))

module _ {Cid Peer : Type 0} ⦃ck : Key Cid⦄ ⦃pk : Key Peer⦄ where
  untrack_all-Less : (cs : List Cid) (s : Sender Cid Peer) → Less s (untrack_all cs s)
  unfolding untrack_all
  untrack_all-Less [] s = Less-refl s
  untrack_all-Less (c ∷ cs) s =
      let s' = untrack_want c s in
      Less-trans s s' (untrack_all cs s') (untrack_want-Less c s) (untrack_all-Less cs s')

  note_update-sender :
      (u : Option (Update Cid Peer)) (b : Batch Cid Peer) → (note_update u b).sender ≡ b.sender
  unfolding note_update
  note_update-sender none b = refl
  note_update-sender (some u) b = ground arith

  note_availability-sender :
      (a : Option (Peer × Bool)) (b : Batch Cid Peer) → (note_availability a b).sender ≡ b.sender
  unfolding note_availability
  note_availability-sender none b = refl
  note_availability-sender (some (p, now)) b = refl

module _ {Cid Peer F : Type 0} ⦃ck : Key Cid⦄ ⦃pk : Key Peer⦄ ⦃fl : Floats F⦄ where
  track_all-Calm :
      (w : World Cid Peer F) (cs : List Cid) (s : Sender Cid Peer) → Calm s (track_all w cs s)
  unfolding track_all
  track_all-Calm w [] s = Calm-refl s
  track_all-Calm w (c ∷ cs) s =
      let s' = track_want w c s in
      Calm-trans s s' (track_all w cs s') (track_want-Calm w c s) (track_all-Calm w cs s')

  apply_change-Calm :
      (w : World Cid Peer F) (ch : Change Cid Peer) (b : Batch Cid Peer)
      → Calm b.sender (apply_change w ch b).sender
  unfolding apply_change
  apply_change-Calm w ch b =
      let s1 = track_all w ch.add b.sender in
      let s2 = untrack_all ch.cancel s1 in
      let b' = record b { sender = s2; cancels = b.cancels ++ ch.cancel } in
      rw
        (
          note_availability-sender ch.availability (note_update ch.update b'),
          note_update-sender ch.update b',
        )
        (Calm-trans b.sender s1 s2 (track_all-Calm w ch.add b.sender)
          (untrack_all-Less ch.cancel s1).calm)

  pub apply_changes-Calm :
      (w : World Cid Peer F) (chs : List (Change Cid Peer)) (b : Batch Cid Peer)
      → Calm b.sender (apply_changes w chs b).sender
  unfolding apply_changes
  apply_changes-Calm w [] b = Calm-refl b.sender
  apply_changes-Calm w (ch ∷ chs) b =
      let b' = apply_change w ch b in
      Calm-trans b.sender b'.sender (apply_changes w chs b').sender (apply_change-Calm w ch b)
        (apply_changes-Calm w chs b')

module _ {Cid Peer : Type 0} ⦃ck : Key Cid⦄ where
  -- whether the block is among the received ones of the changes
  unfoldable pub receives : Cid → List (Change Cid Peer) → Bool
  receives c [] = false
  receives c (ch ∷ chs) =
      elim ch.update [ none ↦ false | some u ↦ contains c u.received ] || receives c chs

  arrives-append :
      (c : Cid) (us vs : List (Update Cid Peer))
      → arrives c (us ++ vs) ≡ (arrives c us || arrives c vs)
  unfolding arrives
  arrives-append c [] vs = refl
  arrives-append c (u ∷ us) vs = ground (arith, arrives-append c us vs)

module _ {Cid Peer : Type 0} ⦃ck : Key Cid⦄ ⦃pk : Key Peer⦄ where
  note_update-updates :
      (u : Option (Update Cid Peer)) (b : Batch Cid Peer) (c : Cid)
      → arrives c (note_update u b).updates
        ≡ (arrives c b.updates || elim u [ none ↦ false | some v ↦ contains c v.received ])
  unfolding note_update arrives
  note_update-updates none b c = ground arith
  note_update-updates (some v) b c = elim (Bool-cases (is_empty v.received && is_empty v.haves)) [
    | inl e ↦ rw e (ground (arith, arrives-append c b.updates (v ∷ [])))
    | inr e ↦ rw e (ground (arith, arrives-append c b.updates (v ∷ [])))
  ]

  note_availability-updates :
      (a : Option (Peer × Bool)) (b : Batch Cid Peer) → (note_availability a b).updates ≡ b.updates
  unfolding note_availability
  note_availability-updates none b = refl
  note_availability-updates (some (p, now)) b = refl

module _ {Cid Peer F : Type 0} ⦃ck : Key Cid⦄ ⦃pk : Key Peer⦄ ⦃fl : Floats F⦄ where
  apply_change-updates :
      (w : World Cid Peer F) (ch : Change Cid Peer) (b : Batch Cid Peer) (c : Cid)
      → arrives c (apply_change w ch b).updates
        ≡ (arrives c b.updates || elim ch.update [ none ↦ false | some u ↦ contains c u.received ])
  unfolding apply_change
  apply_change-updates w ch b c =
      let b' = record b {
        sender = untrack_all ch.cancel (track_all w ch.add b.sender);
        cancels = b.cancels ++ ch.cancel;
      } in
      rw (note_availability-updates ch.availability (note_update ch.update b'))
        (note_update-updates ch.update b' c)

  pub apply_changes-updates :
      (w : World Cid Peer F) (chs : List (Change Cid Peer)) (b : Batch Cid Peer) (c : Cid)
      → arrives c (apply_changes w chs b).updates ≡ (arrives c b.updates || receives c chs)
  unfolding apply_changes receives
  apply_changes-updates w [] b c = ground arith
  apply_changes-updates w (ch ∷ chs) b c =
      ground
        (arith, apply_changes-updates w chs (apply_change w ch b) c, apply_change-updates w ch b c)

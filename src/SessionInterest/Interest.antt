-- ===== src/SessionInterest/Interest.antt =====
-- Which sessions are interested in a key, with the flag of each, after every operation.
use boxo.Base.{
  ℕ, Bool, true, false, not, ◌&&◌, ◌||◌, none, some, List, [], ◌∷◌, Key, same, if◌then◌else◌,
  is_some, contains, contains-append, arith, ◌≡◌, nat_key, eq_of_same,
}
use boxo.Base.Map.{Map, keys, has_key, contains-keys}
use boxo.Base.Nested.{get2, put2, del2, get2-put2, get2-del2, has_key-del2, get2_absent}
use boxo.SessionInterest.{
  Manager, note_deleted, record_all, remove_from, remove_session, clear_wants,
  remove_session_interested,
}

module _ {Cid : Type 0} ⦃key : Key Cid⦄ where
  pub get2-record_all :
      (ses s : ℕ) (ks : List Cid) (c : Cid) (m : Map Cid (Map ℕ Bool))
      → get2 c s (record_all ses ks m)
        ≡ (if same ses s && contains c ks then some true else get2 c s m)
  unfolding record_all
  get2-record_all ses s [] c m = ground arith
  get2-record_all ses s (k ∷ ks) c m =
      ground (arith, get2-record_all ses s ks c (put2 k ses true m), get2-put2 k c ses s true m)

  get2-remove_from :
      (ses s : ℕ) (ks : List Cid) (c : Cid) (m : Map Cid (Map ℕ Bool)) (deleted : List Cid)
      → get2 c s (remove_from ses ks m deleted).0
        ≡ (if same ses s && contains c ks then none else get2 c s m)
  unfolding remove_from
  get2-remove_from ses s [] c m deleted = ground arith
  get2-remove_from ses s (k ∷ ks) c m deleted = ground (
    arith,
    get2-remove_from ses s ks c (del2 k ses m) (note_deleted k m (del2 k ses m) deleted),
    get2-del2 k c ses s m,
  )

  pub get2-clear_wants :
      (ses s : ℕ) (ks : List Cid) (c : Cid) (m : Map Cid (Map ℕ Bool))
      → get2 c s (clear_wants ses ks m)
        ≡ (if same ses s && contains c ks && is_some (get2 c s m) then some false else get2 c s m)
  unfolding clear_wants
  get2-clear_wants ses s [] c m = ground arith
  get2-clear_wants ses s (k ∷ ks) c m = ground (
    arith,
    get2-clear_wants ses s ks c (put2 k ses false m),
    get2-clear_wants ses s ks c m,
    get2-put2 k c ses s false m,
    eq_of_same ses s,
    eq_of_same k c,
  )

  remove_from_absent :
      (ses : ℕ) (ks : List Cid) (c : Cid) (m : Map Cid (Map ℕ Bool)) (deleted : List Cid)
      → has_key c m ≡ false
      → has_key c (remove_from ses ks m deleted).0 ≡ false
  unfolding remove_from
  remove_from_absent ses [] c m deleted h = h
  remove_from_absent ses (k ∷ ks) c m deleted h =
      remove_from_absent ses ks c (del2 k ses m) _ (ground (arith, has_key-del2 k c ses m))

  -- The entry of a key is there exactly if it was and its map keeps a session.
  deleted_lem :
      (ses : ℕ) (ks : List Cid) (c : Cid) (m : Map Cid (Map ℕ Bool)) (deleted : List Cid)
      → contains c (remove_from ses ks m deleted).1
        ≡ (contains c deleted || (has_key c m && not (has_key c (remove_from ses ks m deleted).0)))
  unfolding remove_from note_deleted
  deleted_lem ses [] c m deleted = ground arith
  deleted_lem ses (k ∷ ks) c m deleted =
      let m' = del2 k ses m in
      let deleted' = note_deleted k m m' deleted in
      ground (
        arith,
        deleted_lem ses ks c m' deleted',
        remove_from_absent ses ks c m' deleted',
        contains-append c deleted (k ∷ []),
        has_key-del2 k c ses m,
        eq_of_same k c,
      )

  -- RemoveSession takes the session out of every key, in both maps, and touches no other session;
  -- it returns exactly the keys whose entry among the wants went away with it.
  pub remove_session_lem :
      (sim : Manager Cid) (ses s : ℕ) (c : Cid)
      → (get2 c s (remove_session sim ses).0.wants
          ≡ (if same ses s then none else get2 c s sim.wants))
        × (get2 c s (remove_session sim ses).0.forward_wants
            ≡ (if same ses s then none else get2 c s sim.forward_wants))
        × (contains c (remove_session sim ses).1
            ≡ (has_key c sim.wants && not (has_key c (remove_session sim ses).0.wants)))
  unfolding remove_session
  remove_session_lem sim ses s c = ground (
    arith,
    get2-remove_from ses s (keys sim.wants) c sim.wants [],
    get2-remove_from ses s (keys sim.forward_wants) c sim.forward_wants [],
    deleted_lem ses (keys sim.wants) c sim.wants [],
    contains-keys c sim.wants,
    contains-keys c sim.forward_wants,
    get2_absent c s sim.wants,
    get2_absent c s sim.forward_wants,
  )

  -- RemoveSessionInterested takes the session out of the given keys among the wants only, keeps all
  -- it forwards, and returns exactly the given keys whose entry went away.
  pub remove_session_interested_lem :
      (sim : Manager Cid) (ses : ℕ) (ks : List Cid) (s : ℕ) (c : Cid)
      → (get2 c s (remove_session_interested sim ses ks).0.wants
          ≡ (if same ses s && contains c ks then none else get2 c s sim.wants))
        × (get2 c s (remove_session_interested sim ses ks).0.forward_wants
            ≡ get2 c s sim.forward_wants)
        × (contains c (remove_session_interested sim ses ks).1 ≡ (
            has_key c sim.wants && not (has_key c (remove_session_interested sim ses ks).0.wants)))
  unfolding remove_session_interested
  remove_session_interested_lem sim ses ks s c =
      ground (arith, get2-remove_from ses s ks c sim.wants [], deleted_lem ses ks c sim.wants [])

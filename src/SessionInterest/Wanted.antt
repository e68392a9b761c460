-- ===== src/SessionInterest/Wanted.antt =====
-- What the manager answers: the wanted blocks, and the sessions to tell of a message.
use boxo.Base.{
  ℕ, Bool, true, false, not, ◌&&◌, ◌||◌, some, List, [], ◌∷◌, ◌++◌, Key, same, is_some, or_default,
  contains, contains-select, IsDistinct, append_new, contains-append_new, append_new-IsDistinct,
  arith, ◌≡◌, refl, ap, nat_key, eq_of_same, map, same_refl, inl, inr, Bool-cases,
}
use boxo.Base.Map.{Map, keys, contains-keys}
use boxo.Base.Nested.{get2, inner, get2_lem}
use boxo.SessionInterest.{
  Manager, any_wants, wanted_keys, split_wanted_unwanted, sessions_of, interested_sessions,
  forward_interested_sessions,
}

module _ {Cid : Type 0} ⦃key : Key Cid⦄ where
  any_wants_here :
      (m : Map Cid (Map ℕ Bool)) (c : Cid) (s : ℕ) (ss : List ℕ)
      → contains s ss ≡ true
      → get2 c s m ≡ some true
      → any_wants m c ss ≡ true
  unfolding any_wants
  any_wants_here m c s [] h e = cc
  any_wants_here m c s (x ∷ ss) h e = ground (arith, any_wants_here m c s ss, eq_of_same x s)

  any_wants_nowhere :
      (m : Map Cid (Map ℕ Bool)) (c : Cid) (ss : List ℕ)
      → ((s : ℕ) → or_default false (get2 c s m) ≡ false)
      → any_wants m c ss ≡ false
  unfolding any_wants
  any_wants_nowhere m c [] h = refl
  any_wants_nowhere m c (x ∷ ss) h = ground (arith, h x, any_wants_nowhere m c ss h)

  -- whether the session is interested in one of the keys
  unfoldable pub any_interest : Map Cid (Map ℕ Bool) → ℕ → List Cid → Bool
  any_interest m s [] = false
  any_interest m s (c ∷ cs) = is_some (get2 c s m) || any_interest m s cs

  any_interest-append :
      (m : Map Cid (Map ℕ Bool)) (s : ℕ) (cs ds : List Cid)
      → any_interest m s (cs ++ ds) ≡ (any_interest m s cs || any_interest m s ds)
  unfolding any_interest
  any_interest-append m s [] ds = refl
  any_interest-append m s (c ∷ cs) ds = ground (arith, any_interest-append m s cs ds)

module _ {Cid : Type 0} ⦃key : Key Cid⦄ where
  contains-sessions_of :
      (m : Map Cid (Map ℕ Bool)) (cs : List Cid) (found : List ℕ) (s : ℕ)
      → contains s (sessions_of m cs found) ≡ (any_interest m s cs || contains s found)
  unfolding sessions_of any_interest
  contains-sessions_of m [] found s = refl
  contains-sessions_of m (c ∷ cs) found s = ground (
    arith,
    contains-sessions_of m cs (append_new (keys (inner c m)) found) s,
    contains-append_new (keys (inner c m)) found s,
    contains-keys s (inner c m),
    get2_lem c s m,
  )

  sessions_of-IsDistinct :
      (m : Map Cid (Map ℕ Bool)) (cs : List Cid) (found : List ℕ)
      → IsDistinct found
      → IsDistinct (sessions_of m cs found)
  unfolding sessions_of
  sessions_of-IsDistinct m [] found d = d
  sessions_of-IsDistinct m (c ∷ cs) found d =
      sessions_of-IsDistinct m cs _ (append_new-IsDistinct (keys (inner c m)) found d)

  -- InterestedSessions returns, once each, exactly the sessions with an entry among the wants for
  -- one of the CIDs of the message; ForwardInterestedSessions returns, once each, those and the
  -- sessions with an entry among the forwards.
  pub interested_sessions_lem :
      (sim : Manager Cid) (blks haves dont_haves : List Cid) (s : ℕ)
      → (contains s (interested_sessions sim blks haves dont_haves) ≡ (
          any_interest sim.wants s blks
          || (any_interest sim.wants s haves || any_interest sim.wants s dont_haves)))
        × IsDistinct (interested_sessions sim blks haves dont_haves)
        × (contains s (forward_interested_sessions sim haves)
            ≡ (any_interest sim.wants s haves || any_interest sim.forward_wants s haves))
        × IsDistinct (forward_interested_sessions sim haves)
  unfolding interested_sessions forward_interested_sessions any_interest
  interested_sessions_lem sim blks haves dont_haves s = (
    ground (
      arith,
      contains-sessions_of sim.wants (blks ++ haves ++ dont_haves) [] s,
      any_interest-append sim.wants s (blks ++ haves) dont_haves,
      any_interest-append sim.wants s blks haves,
    ),
    sessions_of-IsDistinct sim.wants (blks ++ haves ++ dont_haves) [] tt,
    ground (
      arith,
      contains-append_new (interested_sessions sim [] haves [])
          (sessions_of sim.forward_wants haves []) s,
      contains-sessions_of sim.forward_wants haves [] s,
      contains-sessions_of sim.wants ([] ++ haves ++ []) [] s,
      any_interest-append sim.wants s haves [],
    ),
    append_new-IsDistinct _ _ (sessions_of-IsDistinct sim.forward_wants haves [] tt),
  )

  contains-wanted_keys :
      (sim : Manager Cid) (cs : List Cid) (c : Cid)
      → contains c (wanted_keys sim cs)
        ≡ (contains c cs && any_wants sim.wants c (keys (inner c sim.wants)))
  unfolding wanted_keys
  contains-wanted_keys sim cs c =
      contains-select (λ d. any_wants sim.wants d (keys (inner d sim.wants))) c cs

module _ {Cid Block : Type 0} ⦃key : Key Cid⦄ ⦃bkey : Key Block⦄ where
  contains-map :
      (f : Block → Cid) (b : Block) (bs : List Block)
      → contains b bs ≡ true
      → contains (f b) (map f bs) ≡ true
  contains-map f b [] h = cc
  contains-map f b (x ∷ bs) h = elim (Bool-cases (same x b)) [
    | inl e ↦ ground (arith, ap f (eq_of_same x b e), same_refl (f b))
    | inr e ↦ ground (arith, e, contains-map f b bs)
  ]

  contains-split :
      (cid_of : Block → Cid) (sim : Manager Cid) (blks : List Block) (b : Block)
      → (contains b (split_wanted_unwanted cid_of sim blks).0
          ≡ (contains b blks && contains (cid_of b) (wanted_keys sim (map cid_of blks))))
        × (contains b (split_wanted_unwanted cid_of sim blks).1
            ≡ (contains b blks && not (contains (cid_of b) (wanted_keys sim (map cid_of blks)))))
  unfolding split_wanted_unwanted
  contains-split cid_of sim blks b =
      let wanted = wanted_keys sim (map cid_of blks) in
      (
        contains-select (λ x. contains (cid_of x) wanted) b blks,
        contains-select (λ x. not (contains (cid_of x) wanted)) b blks,
      )

  -- A received block that some session still wants is among the wanted ones, and not among the
  -- others.
  pub split_wanted :
      (cid_of : Block → Cid) (sim : Manager Cid) (blks : List Block) (b : Block) (s : ℕ)
      → contains b blks ≡ true
      → get2 (cid_of b) s sim.wants ≡ some true
      → (contains b (split_wanted_unwanted cid_of sim blks).0 ≡ true)
        × (contains b (split_wanted_unwanted cid_of sim blks).1 ≡ false)
  split_wanted cid_of sim blks b s h e = ground (
    arith,
    h,
    e,
    contains-split cid_of sim blks b,
    contains-wanted_keys sim (map cid_of blks) (cid_of b),
    contains-map cid_of b blks,
    any_wants_here sim.wants (cid_of b) s (keys (inner (cid_of b) sim.wants)),
    contains-keys s (inner (cid_of b) sim.wants),
    get2_lem (cid_of b) s sim.wants,
  )

  -- A block that no session wants any more is not among the wanted ones, and it is among the others
  -- exactly if it was received.
  pub split_unwanted :
      (cid_of : Block → Cid) (sim : Manager Cid) (blks : List Block) (b : Block)
      → ((s : ℕ) → or_default false (get2 (cid_of b) s sim.wants) ≡ false)
      → (contains b (split_wanted_unwanted cid_of sim blks).0 ≡ false)
        × (contains b (split_wanted_unwanted cid_of sim blks).1 ≡ contains b blks)
  split_unwanted cid_of sim blks b h = ground (
    arith,
    contains-split cid_of sim blks b,
    contains-wanted_keys sim (map cid_of blks) (cid_of b),
    any_wants_nowhere sim.wants (cid_of b) (keys (inner (cid_of b) sim.wants)) h,
  )

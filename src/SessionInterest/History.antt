-- ===== src/SessionInterest/History.antt =====
-- The manager against two tables of flags: what a sequence of calls leaves for each key and session.
use boxo.Base.{
  ℕ, Bool, true, false, ◌&&◌, Option, none, some, List, [], ◌∷◌, Key, same, if◌then◌else◌, is_some,
  contains, arith, ◌≡◌, nat_key,
}
use boxo.Base.Nested.{get2}
use boxo.SessionInterest.{
  Manager, record_session_interest, record_session_forward_interest, remove_session,
  remove_session_wants, remove_session_interested,
}
use boxo.SessionInterest.Interest.{
  get2-record_all, get2-clear_wants, remove_session_lem, remove_session_interested_lem,
}

pub data Call (Cid : Type 0) : Type 0 where
  request : ℕ → List Cid → Call Cid
  request_forward : ℕ → List Cid → Call Cid
  receive : ℕ → List Cid → Call Cid
  cancel : ℕ → List Cid → Call Cid
  shut_down : ℕ → Call Cid

-- For each key and session nothing, or a flag that says whether the session still wants the block.
pub record Tables (Cid : Type 0) : Type 0 where
  pub wanted : Cid → ℕ → Option Bool
  pub forwarded : Cid → ℕ → Option Bool

module _ {Cid : Type 0} ⦃key : Key Cid⦄ where
  pub step : Manager Cid → Call Cid → Manager Cid
  step sim (request ses ks) = record_session_interest sim ses ks
  step sim (request_forward ses ks) = record_session_forward_interest sim ses ks
  step sim (receive ses ks) = remove_session_wants sim ses ks
  step sim (cancel ses ks) = (remove_session_interested sim ses ks).0
  step sim (shut_down ses) = (remove_session sim ses).0

  pub run : Manager Cid → List (Call Cid) → Manager Cid
  run sim [] = sim
  run sim (call ∷ calls) = run (step sim call) calls

  pub wanted_step : (Cid → ℕ → Option Bool) → Call Cid → Cid → ℕ → Option Bool
  wanted_step t (request ses ks) c s = if same ses s && contains c ks then some true else t c s
  wanted_step t (request_forward ses ks) c s = t c s
  wanted_step t (receive ses ks) c s =
      if same ses s && contains c ks && is_some (t c s) then some false else t c s
  wanted_step t (cancel ses ks) c s = if same ses s && contains c ks then none else t c s
  wanted_step t (shut_down ses) c s = if same ses s then none else t c s

  pub forwarded_step : (Cid → ℕ → Option Bool) → Call Cid → Cid → ℕ → Option Bool
  forwarded_step t (request_forward ses ks) c s =
      if same ses s && contains c ks then some true else t c s
  forwarded_step t (shut_down ses) c s = if same ses s then none else t c s
  forwarded_step t _ c s = t c s

  pub tables_run : Tables Cid → List (Call Cid) → Tables Cid
  tables_run t [] = t
  tables_run t (call ∷ calls) =
      tables_run
        (record { wanted = wanted_step t.wanted call; forwarded = forwarded_step t.forwarded call })
        calls

  abbrev pub HoldsFlags : Tables Cid → Manager Cid → Type 0
  HoldsFlags t sim =
      (c : Cid) (s : ℕ)
      → (get2 c s sim.wants ≡ t.wanted c s) × (get2 c s sim.forward_wants ≡ t.forwarded c s)

  step-HoldsFlags :
      (t : Tables Cid) (sim : Manager Cid) (call : Call Cid)
      → HoldsFlags t sim
      → (c : Cid) (s : ℕ)
      → (get2 c s (step sim call).wants ≡ wanted_step t.wanted call c s)
        × (get2 c s (step sim call).forward_wants ≡ forwarded_step t.forwarded call c s)
  unfolding step wanted_step forwarded_step record_session_interest record_session_forward_interest
      remove_session_wants
  step-HoldsFlags t sim (request ses ks) h c s =
      ground (arith, h c s, get2-record_all ses s ks c sim.wants)
  step-HoldsFlags t sim (request_forward ses ks) h c s =
      ground (arith, h c s, get2-record_all ses s ks c sim.forward_wants)
  step-HoldsFlags t sim (receive ses ks) h c s =
      ground (arith, h c s, get2-clear_wants ses s ks c sim.wants)
  step-HoldsFlags t sim (cancel ses ks) h c s =
      ground (arith, h c s, remove_session_interested_lem sim ses ks s c)
  step-HoldsFlags t sim (shut_down ses) h c s =
      ground (arith, h c s, remove_session_lem sim ses s c)

  -- Through every sequence of calls the manager holds, for each key and session, the flags that the
  -- calls describe: a request sets the flag of its map; a received block clears the flag of its
  -- session but keeps the interest; a cancel ends the interest among the wants and leaves the
  -- forwards; a shutdown ends both.
  pub run-HoldsFlags :
      (t : Tables Cid) (sim : Manager Cid) (calls : List (Call Cid))
      → HoldsFlags t sim
      → HoldsFlags (tables_run t calls) (run sim calls)
  unfolding run tables_run
  run-HoldsFlags t sim [] h = h
  run-HoldsFlags t sim (call ∷ calls) h =
      run-HoldsFlags
        (record { wanted = wanted_step t.wanted call; forwarded = forwarded_step t.forwarded call })
        (step sim call) calls (step-HoldsFlags t sim call h)

-- ===== src/SessionInterest.antt =====
-- bitswap/client/internal/sessioninterestmanager/sessioninterestmanager.go: the CIDs that each
-- session is interested in. A session is the number of its ID; the mutex makes each method a step.
pub mod Interest
pub mod History
pub mod Wanted
mod Tests
use boxo.Base.{
  ℕ, Bool, true, false, not, ◌&&◌, ◌||◌, Option, none, some, List, [], ◌∷◌, ◌++◌, Key,
  if◌then◌else◌, is_some, or_default, append_new, contains, select, map, nat_key,
}
use boxo.Base.Map.{Map, lookup, insert, delete, has_key, keys}
use boxo.Base.Nested.{inner, get2, put2, restore, del2}

-- Each flag says whether the session still wants the block, or is only interested in it.
pub record Manager (Cid : Type 0) : Type 0 where
  pub wants : Map Cid (Map ℕ Bool)
  pub forward_wants : Map Cid (Map ℕ Bool)

module _ {Cid : Type 0} where
  pub new : Manager Cid
  new = record { wants = []; forward_wants = [] }

module _ {Cid : Type 0} ⦃key : Key Cid⦄ where
  -- the loop that both recording methods have
  pub record_all : ℕ → List Cid → Map Cid (Map ℕ Bool) → Map Cid (Map ℕ Bool)
  record_all ses [] m = m
  record_all ses (c ∷ cs) m = record_all ses cs (put2 c ses true m)

  pub record_session_interest : Manager Cid → ℕ → List Cid → Manager Cid
  unfolding record_all
  record_session_interest sim ses ks = record sim { wants = record_all ses ks sim.wants }

  pub record_session_forward_interest : Manager Cid → ℕ → List Cid → Manager Cid
  unfolding record_all
  record_session_forward_interest sim ses ks = record sim {
    forward_wants = record_all ses ks sim.forward_wants;
  }

  -- the key at the end of the deleted ones, if its entry went away
  pub note_deleted : Cid → Map Cid (Map ℕ Bool) → Map Cid (Map ℕ Bool) → List Cid → List Cid
  note_deleted c m m' deleted =
      if has_key c m && not (has_key c m') then deleted ++ c ∷ [] else deleted

  -- The session out of the entry of each key: the map, and the keys whose entries went away.
  -- A key without an entry is passed over.
  pub remove_from : ℕ → List Cid → Map Cid (Map ℕ Bool) → List Cid → Map Cid (Map ℕ Bool) × List Cid
  unfolding note_deleted
  remove_from ses [] m deleted = (m, deleted)
  remove_from ses (c ∷ cs) m deleted =
      let m' = del2 c ses m in remove_from ses cs m' (note_deleted c m m' deleted)

  -- The code ranges over the maps; the entries it deletes are the current ones only.
  pub remove_session : Manager Cid → ℕ → Manager Cid × List Cid
  unfolding remove_from
  remove_session sim ses =
      let (wants', deleted) = remove_from ses (keys sim.wants) sim.wants [] in
      let (forward_wants', gone) = remove_from ses (keys sim.forward_wants) sim.forward_wants [] in
      (record { wants = wants'; forward_wants = forward_wants' }, deleted)

  pub clear_wants : ℕ → List Cid → Map Cid (Map ℕ Bool) → Map Cid (Map ℕ Bool)
  clear_wants ses [] m = m
  clear_wants ses (c ∷ cs) m =
      clear_wants ses cs (if or_default false (get2 c ses m) then put2 c ses false m else m)

  pub remove_session_wants : Manager Cid → ℕ → List Cid → Manager Cid
  unfolding clear_wants
  remove_session_wants sim ses ks = record sim { wants = clear_wants ses ks sim.wants }

  pub remove_session_interested : Manager Cid → ℕ → List Cid → Manager Cid × List Cid
  unfolding remove_from
  remove_session_interested sim ses ks =
      let (wants', deleted) = remove_from ses ks sim.wants [] in
      (record sim { wants = wants' }, deleted)

  -- the test of `FilterSessionInterested`
  pub is_interested : Manager Cid → ℕ → Cid → Bool
  is_interested sim ses c = is_some (get2 c ses sim.wants) || is_some (get2 c ses sim.forward_wants)

  pub filter_session_interested : Manager Cid → ℕ → List (List Cid) → List (List Cid)
  unfolding is_interested
  filter_session_interested sim ses ksets = map (select (is_interested sim ses)) ksets

  -- whether one of the sessions wants the key
  pub any_wants : Map Cid (Map ℕ Bool) → Cid → List ℕ → Bool
  any_wants m c [] = false
  any_wants m c (s ∷ ss) = or_default false (get2 c s m) || any_wants m c ss

  -- the set of the wanted keys, as a list
  pub wanted_keys : Manager Cid → List Cid → List Cid
  unfolding any_wants
  wanted_keys sim cs = select (λ c. any_wants sim.wants c (keys (inner c sim.wants))) cs

  pub sessions_of : Map Cid (Map ℕ Bool) → List Cid → List ℕ → List ℕ
  sessions_of m [] found = found
  sessions_of m (c ∷ cs) found = sessions_of m cs (append_new (keys (inner c m)) found)

  pub interested_sessions : Manager Cid → List Cid → List Cid → List Cid → List ℕ
  unfolding sessions_of
  interested_sessions sim blks haves dont_haves =
      sessions_of sim.wants (blks ++ haves ++ dont_haves) []

  pub forward_interested_sessions : Manager Cid → List Cid → List ℕ
  unfolding sessions_of interested_sessions
  forward_interested_sessions sim forward_haves =
      append_new (interested_sessions sim [] forward_haves [])
        (sessions_of sim.forward_wants forward_haves [])

module _ {Cid Block : Type 0} ⦃key : Key Cid⦄ where
  -- The blocks whose keys are wanted, and the others. `cid_of` is the method Cid of a block.
  pub split_wanted_unwanted : (Block → Cid) → Manager Cid → List Block → List Block × List Block
  unfolding wanted_keys
  split_wanted_unwanted cid_of sim blks =
      let wanted = wanted_keys sim (map cid_of blks) in
      (
        select (λ b. contains (cid_of b) wanted) blks,
        select (λ b. not (contains (cid_of b) wanted)) blks,
      )

-- ===== src/Wantlist.antt =====
-- bitswap/client/wantlist/wantlist.go: the wants of one peer, with the sorted list memoised.
pub mod Order
pub mod Validity
pub mod Merge
mod Tests
use boxo.Base.{
  ℕ, Bool, true, false, ◌&&◌, ◌||◌, Option, none, some, List, [], ◌∷◌, Key, same, length,
  if◌then◌else◌,
}
use boxo.Base.Int.{ℤ, ltb_ℤ}
use boxo.Base.Map.{Map, lookup, insert, delete, values}
use boxo.Wire.{WantType, is_block, is_have}

pub record Entry (Cid : Type 0) : Type 0 where
  pub cid : Cid
  pub priority : ℤ
  pub want_type : WantType

-- `cached` is `none` where the code has a nil slice.
pub record Wantlist (Cid : Type 0) : Type 0 where
  pub set : Map Cid (Entry Cid)
  pub cached : Option (List (Entry Cid))

module _ {Cid : Type 0} where
  pub new_ref_entry : Cid → ℤ → Entry Cid
  new_ref_entry c p = record { cid = c; priority = p; want_type = WantType.block }

  pub new : Wantlist Cid
  new = record { set = []; cached = none }

  -- `entrySlice.Less`: the higher priority first.
  pub less : Entry Cid → Entry Cid → Bool
  less e f = ltb_ℤ f.priority e.priority

  -- `sort.Sort(entrySlice(es))`, which fixes no order among equal priorities.
  pub insert_sorted : Entry Cid → List (Entry Cid) → List (Entry Cid)
  insert_sorted e [] = e ∷ []
  insert_sorted e (f ∷ es) = if less f e then f ∷ insert_sorted e es else e ∷ f ∷ es

  pub sort : List (Entry Cid) → List (Entry Cid)
  sort [] = []
  sort (e ∷ es) = insert_sorted e (sort es)

  -- `Entries`: the result beside the wantlist, whose cache it fills.
  pub entries : Wantlist Cid → Wantlist Cid × List (Entry Cid)
  entries w = elim w.cached [
    | some es ↦ (w, es)
    | none ↦ let es = sort (values w.set) in (record w { cached = some es }, es)
  ]

module _ {Cid : Type 0} ⦃key : Key Cid⦄ where
  pub len : Wantlist Cid → ℕ
  len w = length w.set

  pub put : Wantlist Cid → Cid → Entry Cid → Wantlist Cid
  put w c e = record { set = insert c e w.set; cached = none }

  -- the method `delete`
  pub remove_key : Wantlist Cid → Cid → Wantlist Cid
  remove_key w c = record { set = delete c w.set; cached = none }

  -- `Contains`
  pub find : Wantlist Cid → Cid → Option (Entry Cid)
  find w c = lookup c w.set

  -- the guard of `Add`: a want-have does not override a want-block, nor a want its equal
  unfoldable pub keeps_old : Option (Entry Cid) → WantType → Bool
  keeps_old none t = false
  keeps_old (some e) t = is_block e.want_type || is_have t

  pub add : Wantlist Cid → Cid → ℤ → WantType → Wantlist Cid × Bool
  unfolding put keeps_old find
  add w c priority t =
      if keeps_old (find w c) t
      then (w, false)
      else (put w c (record { cid = c; priority = priority; want_type = t }), true)

  pub remove : Wantlist Cid → Cid → Wantlist Cid × Bool
  unfolding remove_key find
  remove w c = elim (find w c) [ none ↦ (w, false) | some e ↦ (remove_key w c, true) ]

  pub remove_type : Wantlist Cid → Cid → WantType → Wantlist Cid × Bool
  unfolding remove_key find
  remove_type w c t = elim (find w c) [
    | none ↦ (w, false)
    | some e ↦ if is_block e.want_type && is_have t then (w, false) else (remove_key w c, true)
  ]

  pub add_all : Wantlist Cid → List (Entry Cid) → Wantlist Cid
  add_all w [] = w
  add_all w (e ∷ es) = add_all (add w e.cid e.priority e.want_type).0 es

  -- `Absorb`: the receiver beside the other wantlist, whose cache is filled.
  pub absorb : Wantlist Cid → Wantlist Cid → Wantlist Cid × Wantlist Cid
  unfolding add_all entries
  absorb w other =
      let (other', es) = entries other in (add_all (record w { cached = none }) es, other')

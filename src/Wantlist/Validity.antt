-- ===== src/Wantlist/Validity.antt =====
-- What holds of every wantlist, and what each method keeps.
use boxo.Base.{◌≡◌, refl, ◌⊎◌, inl, none, some, List, [], ◌∷◌, Key, arith}
use boxo.Base.Int.{ℤ}
use boxo.Base.Map.{
  Map, lookup, insert, delete, values, HasDistinctKeys, contains-keys, insert-HasDistinctKeys,
  delete-HasDistinctKeys,
}
use boxo.Wire.{WantType}
use boxo.Wantlist.{
  Entry, Wantlist, sort, new, entries, put, remove_key, find, add, remove, remove_type, add_all,
  absorb,
}
use boxo.Wantlist.Order.{IsSorted, sort-IsSorted, first, HasDistinctCids, first-sort}

module _ {Cid : Type 0} where
  -- Each entry stands under its own CID.
  abbrev pub IsKeyed : Map Cid (Entry Cid) → Type 0
  IsKeyed [] = Unit {0}
  IsKeyed ((c, e) ∷ m) = (e.cid ≡ c) × IsKeyed m

-- The calls that a client makes on one wantlist.
pub data Call (Cid : Type 0) : Type 0 where
  adds : Cid → ℤ → WantType → Call Cid
  removes : Cid → Call Cid
  removes_type : Cid → WantType → Call Cid
  lists : Call Cid

module _ {Cid : Type 0} ⦃key : Key Cid⦄ where
  pub record IsValid (w : Wantlist Cid) : Type 0 where
    pub keyed : IsKeyed w.set
    pub distinct : HasDistinctKeys w.set
    -- the memo is never stale
    pub memo : (w.cached ≡ none) ⊎ (w.cached ≡ some (sort (values w.set)))

  insert-IsKeyed :
      (c : Cid) (e : Entry Cid) (m : Map Cid (Entry Cid))
      → e.cid ≡ c
      → IsKeyed m
      → IsKeyed (insert c e m)
  unfolding insert
  insert-IsKeyed c e [] h k = (h, tt)
  insert-IsKeyed c e ((d, f) ∷ m) h k = ground (arith, insert-IsKeyed c e m h k.1)

  delete-IsKeyed : (c : Cid) (m : Map Cid (Entry Cid)) → IsKeyed m → IsKeyed (delete c m)
  unfolding delete
  delete-IsKeyed c [] k = tt
  delete-IsKeyed c ((d, f) ∷ m) k = ground (arith, delete-IsKeyed c m k.1)

  put-IsValid :
      (w : Wantlist Cid) (c : Cid) (e : Entry Cid) → e.cid ≡ c → IsValid w → IsValid (put w c e)
  unfolding put
  put-IsValid w c e h v = record {
    keyed = insert-IsKeyed c e w.set h v.keyed;
    distinct = insert-HasDistinctKeys c e w.set v.distinct;
    memo = inl refl;
  }

  remove_key-IsValid : (w : Wantlist Cid) (c : Cid) → IsValid w → IsValid (remove_key w c)
  unfolding remove_key
  remove_key-IsValid w c v = record {
    keyed = delete-IsKeyed c w.set v.keyed;
    distinct = delete-HasDistinctKeys c w.set v.distinct;
    memo = inl refl;
  }

  pub new-IsValid : IsValid (new {Cid = Cid})
  unfolding new
  new-IsValid = record { keyed = tt; distinct = tt; memo = inl refl }

  pub add-IsValid :
      (w : Wantlist Cid) (c : Cid) (p : ℤ) (t : WantType) → IsValid w → IsValid (add w c p t).0
  unfolding add
  add-IsValid w c p t v =
      ground (arith, put-IsValid w c (record { cid = c; priority = p; want_type = t }) refl v)

  remove-IsValid : (w : Wantlist Cid) (c : Cid) → IsValid w → IsValid (remove w c).0
  unfolding remove
  remove-IsValid w c v = ground (arith, remove_key-IsValid w c v)

  remove_type-IsValid :
      (w : Wantlist Cid) (c : Cid) (t : WantType) → IsValid w → IsValid (remove_type w c t).0
  unfolding remove_type
  remove_type-IsValid w c t v = ground (arith, remove_key-IsValid w c v)

  entries-IsValid : (w : Wantlist Cid) → IsValid w → IsValid (entries w).0
  unfolding entries
  entries-IsValid w v = ground arith

  pub add_all-IsValid :
      (w : Wantlist Cid) (es : List (Entry Cid)) → IsValid w → IsValid (add_all w es)
  unfolding add_all
  add_all-IsValid w [] v = v
  add_all-IsValid w (e ∷ es) v =
      add_all-IsValid (add w e.cid e.priority e.want_type).0 es
        (add-IsValid w e.cid e.priority e.want_type v)

  absorb-IsValid :
      (w other : Wantlist Cid)
      → IsValid w
      → IsValid other
      → IsValid (absorb w other).0 × IsValid (absorb w other).1
  unfolding absorb
  absorb-IsValid w other v o = (
    add_all-IsValid (record w { cached = none }) (entries other).1
        (record { keyed = v.keyed; distinct = v.distinct; memo = inl refl }),
    entries-IsValid other o,
  )

  unfoldable pub step : Wantlist Cid → Call Cid → Wantlist Cid
  step w (adds c p t) = (add w c p t).0
  step w (removes c) = (remove w c).0
  step w (removes_type c t) = (remove_type w c t).0
  step w lists = (entries w).0

  unfoldable pub run : Wantlist Cid → List (Call Cid) → Wantlist Cid
  run w [] = w
  run w (call ∷ calls) = run (step w call) calls

  step-IsValid : (w : Wantlist Cid) (call : Call Cid) → IsValid w → IsValid (step w call)
  unfolding step
  step-IsValid w (adds c p t) v = add-IsValid w c p t v
  step-IsValid w (removes c) v = remove-IsValid w c v
  step-IsValid w (removes_type c t) v = remove_type-IsValid w c t v
  step-IsValid w lists v = entries-IsValid w v

  -- Every call of Add, Remove, RemoveType and Entries keeps a valid wantlist valid: entries stand
  -- under their own CIDs, no CID stands twice, and the memoised list is nil or the sorted entries.
  pub run-IsValid : (w : Wantlist Cid) (calls : List (Call Cid)) → IsValid w → IsValid (run w calls)
  unfolding run
  run-IsValid w [] v = v
  run-IsValid w (call ∷ calls) v = run-IsValid (step w call) calls (step-IsValid w call v)

  pub first-values :
      (c : Cid) (m : Map Cid (Entry Cid)) → IsKeyed m → first c (values m) ≡ lookup c m
  unfolding lookup
  first-values c [] k = refl
  first-values c ((d, e) ∷ m) k = ground (arith, first-values c m k.1)

  pub values-HasDistinctCids :
      (m : Map Cid (Entry Cid)) → IsKeyed m → HasDistinctKeys m → HasDistinctCids (values m)
  values-HasDistinctCids [] k d = tt
  values-HasDistinctCids ((c, e) ∷ m) k d =
      ground (arith, first-values e.cid m k.1, contains-keys c m, values-HasDistinctCids m k.1 d.1)

  pub entries-sort : (w : Wantlist Cid) → IsValid w → (entries w).1 ≡ sort (values w.set)
  unfolding entries
  entries-sort w v = ground arith

  -- Entries of a valid wantlist returns a list whose priorities do not rise, which holds for each
  -- CID what Contains returns for it, and leaves the entries of the wantlist as they were.
  pub entries_correct :
      (w : Wantlist Cid)
      → IsValid w
      → IsSorted (entries w).1
        × ((c : Cid) → first c (entries w).1 ≡ find w c)
        × ((entries w).0.set ≡ w.set)
  unfolding find entries
  entries_correct w v = (
    ground (arith, entries-sort w v, sort-IsSorted (values w.set)),
    λ c. ground (
      arith,
      entries-sort w v,
      first-sort c (values w.set) (values-HasDistinctCids w.set v.keyed v.distinct),
      first-values c w.set v.keyed,
    ),
    ground arith,
  )

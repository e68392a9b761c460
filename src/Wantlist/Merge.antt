-- ===== src/Wantlist/Merge.antt =====
-- Want-blocks against want-haves: what Add, RemoveType and Absorb leave for each CID.
use boxo.Base.{
  ◌≡◌, refl, true, false, none, some, List, [], ◌∷◌, Key, same, arith, if◌then◌else◌, not, ◌&&◌,
  Bool, Option,
}
use boxo.Base.Int.{ℤ}
use boxo.Base.Map.{lookup-insert, lookup-delete}
use boxo.Wire.{WantType, is_block, is_have}
use boxo.Wantlist.{
  Entry, Wantlist, entries, put, remove_key, find, keeps_old, add, remove, remove_type, add_all,
  absorb,
}
use boxo.Wantlist.Order.{first, HasDistinctCids, sort-HasDistinctCids}
use boxo.Wantlist.Validity.{
  IsValid, Call, adds, removes, removes_type, lists, step, run, entries_correct,
  values-HasDistinctCids, entries-sort,
}

module _ {Cid : Type 0} where
  -- The want that is left when `f` joins `e`: a want-block stays, and a want-have never replaces.
  pub stronger_entry : WantType → WantType → Entry Cid → Entry Cid → Entry Cid
  stronger_entry WantType.block t e f = e
  stronger_entry WantType.have WantType.have e f = e
  stronger_entry WantType.have t e f = f
  stronger_entry WantType.forward WantType.have e f = e
  stronger_entry WantType.forward t e f = f

  abbrev pub stronger : Option (Entry Cid) → Option (Entry Cid) → Option (Entry Cid)
  stronger none o = o
  stronger (some e) none = some e
  stronger (some e) (some f) = some (stronger_entry e.want_type f.want_type e f)

  stronger-none : (o : Option (Entry Cid)) → o ≡ stronger o none
  stronger-none none = refl
  stronger-none (some e) = refl

  stronger_block :
      (e f : Entry Cid) → is_block e.want_type ≡ true → stronger (some e) (some f) ≡ some e
  unfolding stronger_entry
  stronger_block e f h = ground arith

module _ {Cid : Type 0} ⦃key : Key Cid⦄ where
  -- After Add the CID holds the stronger of the old want and the new one, where a want-block beats
  -- all later wants and a want-have beats none; every other CID is as before; and Add returns true
  -- exactly when it stored the new want.
  pub find-add :
      (w : Wantlist Cid) (c d : Cid) (p : ℤ) (t : WantType)
      → let e : Entry Cid = record { cid = c; priority = p; want_type = t } in
        (find (add w c p t).0 d ≡ (if same c d then stronger (find w c) (some e) else find w d))
        × ((add w c p t).1 ≡ not (keeps_old (find w c) t))
  unfolding add keeps_old put find stronger_entry
  find-add w c d p t =
      let e : Entry Cid = record { cid = c; priority = p; want_type = t } in
      (ground (arith, lookup-insert c d e w.set), ground arith)

  find-remove_key :
      (w : Wantlist Cid) (c d : Cid)
      → find (remove_key w c) d ≡ (if same c d then none else find w d)
  unfolding remove_key find
  find-remove_key w c d = lookup-delete c d w.set

  -- Remove takes the CID's want away and no other; it returns whether there was one.
  pub find-remove :
      (w : Wantlist Cid) (c d : Cid)
      → (find (remove w c).0 d ≡ (if same c d then none else find w d))
        × ((remove w c).1 ≡ (elim (find w c) [ none ↦ false | some e ↦ true ]))
  unfolding remove
  find-remove w c d = (ground (arith, find-remove_key w c d), ground arith)

  -- Whether the want survives a RemoveType: only a want-block does, against a want-have.
  abbrev pub outlives : Option (Entry Cid) → WantType → Bool
  outlives none t = false
  outlives (some e) t = is_block e.want_type && is_have t

  -- RemoveType takes the CID's want away, unless that is a want-block and the type is want-have,
  -- and leaves every other CID as it was.
  pub find-remove_type :
      (w : Wantlist Cid) (c d : Cid) (t : WantType)
      → find (remove_type w c t).0 d
        ≡ (if same c d && not (outlives (find w c) t) then none else find w d)
  unfolding remove_type
  find-remove_type w c d t = ground (arith, find-remove_key w c d)

  -- RemoveType reports whether it took a want away.
  pub remove_type_result :
      (w : Wantlist Cid) (c : Cid) (t : WantType)
      → (remove_type w c t).1
        ≡ (elim (find w c) [ none ↦ false | some e ↦ not (outlives (some e) t) ])
  unfolding remove_type
  remove_type_result w c t = ground arith

  find-entries : (w : Wantlist Cid) (d : Cid) → find (entries w).0 d ≡ find w d
  unfolding find entries
  find-entries w d = ground arith

  -- Whether the call may end a want-block for the CID.
  abbrev pub releases : Cid → Call Cid → Bool
  releases c (removes d) = same d c
  releases c (removes_type d t) = same d c && not (is_have t)
  releases c _ = false

  abbrev pub NoneReleases : Cid → List (Call Cid) → Type 0
  NoneReleases c [] = Unit {0}
  NoneReleases c (call ∷ calls) = (releases c call ≡ false) × NoneReleases c calls

  step_keeps_block :
      (w : Wantlist Cid) (c : Cid) (e : Entry Cid) (call : Call Cid)
      → is_block e.want_type ≡ true
      → releases c call ≡ false
      → find w c ≡ some e
      → find (step w call) c ≡ some e
  unfolding step
  step_keeps_block w c e (adds d p t) b n h = ground (
    arith,
    find-add w d c p t,
    stronger_block e (record { cid = d; priority = p; want_type = t }),
  )
  step_keeps_block w c e (removes d) b n h = ground (arith, find-remove w d c)
  step_keeps_block w c e (removes_type d t) b n h = ground (arith, find-remove_type w d c t)
  step_keeps_block w c e lists b n h = rw (find-entries w c) h

  -- Once a CID is wanted as a block, that want stays, priority included, through every sequence of
  -- calls with no Remove of the CID and no RemoveType of it with a type other than want-have.
  pub run_keeps_block :
      (w : Wantlist Cid) (c : Cid) (e : Entry Cid) (calls : List (Call Cid))
      → is_block e.want_type ≡ true
      → NoneReleases c calls
      → find w c ≡ some e
      → find (run w calls) c ≡ some e
  unfolding run
  run_keeps_block w c e [] b n h = h
  run_keeps_block w c e (call ∷ calls) b n h =
      run_keeps_block (step w call) c e calls b n.1 (step_keeps_block w c e call b n.0 h)

  find-add_all :
      (c : Cid) (w : Wantlist Cid) (es : List (Entry Cid))
      → HasDistinctCids es
      → find (add_all w es) c ≡ stronger (find w c) (first c es)
  unfolding add_all
  find-add_all c w [] d = stronger-none (find w c)
  find-add_all c w (e ∷ es) d = ground (
    arith,
    find-add_all c (add w e.cid e.priority e.want_type).0 es d.1,
    find-add w e.cid c e.priority e.want_type,
  )

  find-uncached : (w : Wantlist Cid) (c : Cid) → find (record w { cached = none }) c ≡ find w c
  unfolding find
  find-uncached w c = refl

  -- Absorb joins two wantlists: for each CID the receiver holds the stronger of its own want and
  -- that of the other, if the other is valid.
  pub find-absorb :
      (w other : Wantlist Cid) (c : Cid)
      → IsValid other
      → find (absorb w other).0 c ≡ stronger (find w c) (find other c)
  unfolding absorb
  find-absorb w other c v =
      let es = (entries other).1 in
      let listed = entries_correct other v in
      let distinct = sort-HasDistinctCids _ (values-HasDistinctCids _ v.keyed v.distinct) in
      ground (
        arith,
        find-add_all c (record w { cached = none }) es (rw (entries-sort other v) distinct),
        listed.1 c,
        find-uncached w c,
      )

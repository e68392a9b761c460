-- ===== src/Message/Entries.antt =====
-- Messages through sequences of calls: what stays valid, and what later calls cannot take back.
use boxo.Base.{
  ℕ, Bool, true, false, ◌&&◌, Option, none, some, List, [], ◌∷◌, Key, same, eq_of_same, arith, ◌≡◌,
  refl, Option-cases, inl, inr, same_refl,
}
use boxo.Base.Int.{ℤ}
use boxo.Base.Map.{lookup, has_key, lookup-insert, lookup-delete}
use boxo.Wire.{WantType, same_type}
use boxo.Message.{
  Entry, Message, merge_entry, add_entry_with, add_entry, cancel_entry, create_forward,
  add_forward_entry_with, add_forward_entry, cancel_forward, remove, remove_forward, reset,
  add_block, add_block_presence, add_forward_have,
}
use boxo.Message.Calls.{
  Call, entry_call, cancel_call, forward_call, cancel_forward_call, remove_call,
  remove_forward_call, block_call, reset_call, presence_call, forward_have_call, step, run,
}

module _ {Cid : Type 0} ⦃key : Key Cid⦄ where
  -- whether an entry is for the CID
  abbrev pub stands_under : Cid → Option (Entry Cid) → Bool
  stands_under c none = true
  stands_under c (some e) = same e.entry.cid c

  -- whether an entry forwards the CID and asks for DONT_HAVEs
  abbrev pub forwards_under : Cid → Option (Entry Cid) → Bool
  forwards_under c none = true
  forwards_under c (some e) =
      same e.entry.cid c && (same_type e.entry.want_type WantType.forward && e.send_dont_have)

  merge_entry_cid :
      (e : Entry Cid) (p : ℤ) (x : Bool) (t : WantType) (d : Bool)
      → (merge_entry e p x t d).entry.cid ≡ e.entry.cid
  unfolding merge_entry
  merge_entry_cid e p x t d = refl

module _ {Cid Block Addr : Type 0} ⦃key : Key Cid⦄ where
  -- For a CID: its entries stand under it, a forward entry asks for a forward and for DONT_HAVEs, and
  -- a block and a HAVE or DONT_HAVE are never both there.
  abbrev pub IsWellFormedAt : Message Cid Block Addr → Cid → Type 0
  IsWellFormedAt m c =
      (stands_under c (lookup c m.wantlist) ≡ true)
      × (forwards_under c (lookup c m.forwardlist) ≡ true)
      × ((has_key c m.blocks && has_key c m.block_presences) ≡ false)

  abbrev pub IsWellFormed : Message Cid Block Addr → Type 0
  IsWellFormed m = (c : Cid) → IsWellFormedAt m c

  add_entry_with-IsWellFormed :
      (size : Entry Cid → ℕ) (m : Message Cid Block Addr) (c : Cid) (p : ℤ) (x : Bool)
      (t : WantType) (d : Bool)
      → IsWellFormed m
      → IsWellFormed (add_entry_with size m c p x t d).0
  unfolding add_entry_with merge_entry
  add_entry_with-IsWellFormed size m c p x t d v h = elim (Option-cases (lookup c m.wantlist)) [
    | inl e ↦ ground (
      arith,
      e,
      v h,
      lookup-insert c h
          (record {
            entry = record { cid = c; priority = p; want_type = t };
            cancel = x;
            send_dont_have = d;
          })
          m.wantlist,
      eq_of_same c h,
    )
    | inr (f, e) ↦
        ground
          (arith, e, v h, v c, lookup-insert c h (merge_entry f p x t d) m.wantlist, eq_of_same c h)
  ]

  create_forward-IsWellFormed :
      (size : Entry Cid → ℕ) (m : Message Cid Block Addr) (c : Cid) (p : ℤ) (x : Bool)
      → IsWellFormed m
      → IsWellFormed (create_forward size m c p x).0
  unfolding create_forward
  create_forward-IsWellFormed size m c p x v h = ground (
    arith,
    v h,
    same_refl c,
    lookup-insert c h
        (record {
          entry = record { cid = c; priority = p; want_type = WantType.forward };
          cancel = x;
          send_dont_have = true;
        })
        m.forwardlist,
    eq_of_same c h,
  )

  add_forward_entry_with-IsWellFormed :
      (size : Entry Cid → ℕ) (m : Message Cid Block Addr) (c : Cid) (p : ℤ) (x : Bool)
      → IsWellFormed m
      → IsWellFormed (add_forward_entry_with size m c p x).0
  unfolding add_forward_entry_with
  add_forward_entry_with-IsWellFormed size m c p x v h =
      elim (Option-cases (lookup c m.forwardlist)) [
        | inl e ↦ ground (arith, e, create_forward-IsWellFormed size m c p x v h)
        | inr (f, e) ↦ ground (
          arith,
          e,
          v h,
          v c,
          create_forward-IsWellFormed size m c p x v h,
          lookup-insert c h (record f { cancel = x }) m.forwardlist,
          eq_of_same c h,
        )
      ]

  step-IsWellFormed :
      (size : Entry Cid → ℕ) (m : Message Cid Block Addr) (call : Call Cid Block Addr)
      → IsWellFormed m
      → IsWellFormed (step size m call)
  unfolding step add_entry cancel_entry add_forward_entry cancel_forward remove remove_forward
      add_block add_block_presence add_forward_have reset lookup
  step-IsWellFormed size m (entry_call c p t d) v =
      add_entry_with-IsWellFormed size m c p false t d v
  step-IsWellFormed size m (cancel_call c) v =
      add_entry_with-IsWellFormed size m c _ true WantType.block false v
  step-IsWellFormed size m (forward_call c p) v =
      add_forward_entry_with-IsWellFormed size m c p false v
  step-IsWellFormed size m (cancel_forward_call c) v =
      add_forward_entry_with-IsWellFormed size m c _ true v
  step-IsWellFormed size m (remove_call c) v =
      λ h. ground (arith, v h, lookup-delete c h m.wantlist)
  step-IsWellFormed size m (remove_forward_call c) v =
      λ h. ground (arith, v h, lookup-delete c h m.forwardlist)
  step-IsWellFormed size m (block_call c b) v =
      λ h. ground (arith, v h, lookup-delete c h m.block_presences, lookup-insert c h b m.blocks)
  step-IsWellFormed size m (reset_call full) v = λ h. ground arith
  step-IsWellFormed size m (presence_call c t) v =
      λ h. ground (arith, v h, lookup-insert c h t m.block_presences, eq_of_same c h)
  step-IsWellFormed size m (forward_have_call c ps) v = λ h. ground (arith, v h)

  -- Through every sequence of calls each entry of a message stands under its CID, a forward entry asks
  -- for a forward and for DONT_HAVEs, and no CID has both a block and a HAVE or DONT_HAVE.
  pub run-IsWellFormed :
      (size : Entry Cid → ℕ) (m : Message Cid Block Addr) (calls : List (Call Cid Block Addr))
      → IsWellFormed m
      → IsWellFormed (run size m calls)
  unfolding run
  run-IsWellFormed size m [] v = v
  run-IsWellFormed size m (call ∷ calls) v =
      run-IsWellFormed size (step size m call) calls (step-IsWellFormed size m call v)

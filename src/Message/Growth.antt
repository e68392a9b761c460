-- ===== src/Message/Growth.antt =====
-- What later calls cannot take back from a want of a message.
use boxo.Base.{
  ℕ, Bool, true, false, not, ◌||◌, Option, none, some, List, [], ◌∷◌, Key, eq_of_same, arith, ◌≡◌,
  Option-cases, inl, inr, Bool-cases,
}
use boxo.Base.Int.{ℤ, pos}
use boxo.Base.Map.{lookup, lookup-insert, lookup-delete}
use boxo.Wire.{WantType, is_block}
use boxo.Message.{
  Entry, Message, merged_type, merge_entry, add_entry_with, add_entry, cancel_entry, create_forward,
  add_forward_entry_with, add_forward_entry, cancel_forward, remove, remove_forward, add_block,
  add_block_presence, add_forward_have,
}
use boxo.Message.Calls.{
  Call, entry_call, cancel_call, forward_call, cancel_forward_call, remove_call,
  remove_forward_call, block_call, reset_call, presence_call, forward_have_call, step, run, removes,
  none_removes,
}

-- whether a test on entries holds of the want for a CID
module _ {Cid : Type 0} where
  abbrev pub holds : (Entry Cid → Bool) → Option (Entry Cid) → Bool
  holds test none = false
  holds test (some e) = test e

  -- the want cancels, asks for a DONT_HAVE, asks for the block
  abbrev pub wants_cancel : Entry Cid → Bool
  wants_cancel e = e.cancel

  abbrev pub wants_dont_have : Entry Cid → Bool
  wants_dont_have e = e.send_dont_have

  abbrev pub wants_block : Entry Cid → Bool
  wants_block e = is_block e.entry.want_type

  -- The three tests, each of which stays true once it is.
  abbrev pub Grows : Option (Entry Cid) → Option (Entry Cid) → Type 0
  Grows o o' =
      ((not (holds wants_cancel o) || holds wants_cancel o') ≡ true)
      × ((not (holds wants_dont_have o) || holds wants_dont_have o') ≡ true)
      × ((not (holds wants_block o) || holds wants_block o') ≡ true)

  Grows-trans : (o p q : Option (Entry Cid)) → Grows o p → Grows p q → Grows o q
  Grows-trans o p q g h = ground (arith, g, h)

module _ {Cid Block Addr : Type 0} ⦃key : Key Cid⦄ where
  add_entry_with-Grows :
      (size : Entry Cid → ℕ) (m : Message Cid Block Addr) (c : Cid) (p : ℤ) (x : Bool)
      (t : WantType) (d : Bool) (h : Cid)
      → Grows (lookup h m.wantlist) (lookup h (add_entry_with size m c p x t d).0.wantlist)
  unfolding add_entry_with merge_entry merged_type
  add_entry_with-Grows size m c p x t d h = elim (Option-cases (lookup c m.wantlist)) [
    | inl e ↦ ground (
      arith,
      e,
      lookup-insert c h
          (record {
            entry = record { cid = c; priority = p; want_type = t };
            cancel = x;
            send_dont_have = d;
          })
          m.wantlist,
      eq_of_same c h,
    )
    | inr (f, e) ↦
        ground (arith, e, lookup-insert c h (merge_entry f p x t d) m.wantlist, eq_of_same c h)
  ]

  forward_keeps_wantlist :
      (size : Entry Cid → ℕ) (m : Message Cid Block Addr) (c : Cid) (p : ℤ) (x : Bool)
      → (add_forward_entry_with size m c p x).0.wantlist ≡ m.wantlist
  unfolding add_forward_entry_with create_forward
  forward_keeps_wantlist size m c p x = ground arith

  step-Grows :
      (size : Entry Cid → ℕ) (m : Message Cid Block Addr) (call : Call Cid Block Addr) (h : Cid)
      → removes h call ≡ false
      → Grows (lookup h m.wantlist) (lookup h (step size m call).wantlist)
  unfolding step removes add_entry cancel_entry add_forward_entry cancel_forward remove
      remove_forward add_block add_block_presence add_forward_have
  step-Grows size m (entry_call c p t d) h r = add_entry_with-Grows size m c p false t d h
  step-Grows size m (cancel_call c) h r =
      add_entry_with-Grows size m c _ true WantType.block false h
  step-Grows size m (forward_call c p) h r = ground (arith, forward_keeps_wantlist size m c p false)
  step-Grows size m (cancel_forward_call c) h r =
      ground (arith, forward_keeps_wantlist size m c (pos 0) true)
  step-Grows size m (remove_call c) h r = ground (arith, r, lookup-delete c h m.wantlist)
  step-Grows size m (remove_forward_call c) h r = ground arith
  step-Grows size m (block_call c b) h r = ground arith
  step-Grows size m (reset_call full) h r = cc
  step-Grows size m (presence_call c t) h r = ground arith
  step-Grows size m (forward_have_call c ps) h r = ground arith

  -- Through any calls but Remove of the CID and Reset, its want in the wantlist of the message keeps a cancel,
  -- keeps the wish for a DONT_HAVE, and stays a want-block, once it is that.
  pub run-Grows :
      (size : Entry Cid → ℕ) (m : Message Cid Block Addr) (calls : List (Call Cid Block Addr))
      (h : Cid)
      → none_removes h calls ≡ true
      → Grows (lookup h m.wantlist) (lookup h (run size m calls).wantlist)
  unfolding run none_removes
  run-Grows size m [] h r = ground arith
  run-Grows size m (call ∷ calls) h r = elim (Bool-cases (removes h call)) [
    | inl e ↦ ground (arith, r, e)
    | inr e ↦
        Grows-trans (lookup h m.wantlist) (lookup h (step size m call).wantlist)
          (lookup h (run size (step size m call) calls).wantlist) (step-Grows size m call h e)
          (run-Grows size (step size m call) calls h (ground (arith, r, e)))
  ]

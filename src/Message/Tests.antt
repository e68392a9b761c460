-- ===== src/Message/Tests.antt =====
-- Runs of messages, and their properties at concrete inputs.
use boxo.Base.{ℕ, ◌≡◌, refl, true, false, List, [], ◌∷◌, nat_key, ℕ_discrete}
use boxo.Base.Int.{pos}
use boxo.Base.Map.{lookup, insert, delete}
use boxo.Wire.{WantType, PresenceType}
use boxo.Message.{
  Entry, Message, new, reset, empty, wantlist_of, forwardlist_of, blocks_of, presences_by_type,
  haves, dont_haves, set_pending_bytes, remove, remove_forward, merged_priority, merged_type,
  merge_entry, add_entry_with, add_entry, cancel_entry, create_forward, add_forward_entry_with,
  add_forward_entry, cancel_forward, add_block, add_block_presence, add_have, add_dont_have,
  add_forward_have,
}
use boxo.Message.Calls.{
  Call, entry_call, cancel_call, forward_call, cancel_forward_call, remove_call,
  remove_forward_call, block_call, presence_call, forward_have_call, step, run, removes,
  none_removes,
}
use boxo.Message.Entries.{IsWellFormed, run-IsWellFormed}
use boxo.Message.Growth.{Grows, run-Grows}

program : Unit {0}
unfolding new reset empty wantlist_of forwardlist_of blocks_of presences_by_type haves dont_haves
    set_pending_bytes remove remove_forward merged_priority merged_type merge_entry add_entry_with
    add_entry cancel_entry create_forward add_forward_entry_with add_forward_entry cancel_forward
    add_block add_block_presence add_have add_dont_have add_forward_have lookup insert delete
    ℕ_discrete step run removes none_removes
program = tt

abbrev M : Type 0
M = Message ℕ ℕ ℕ

abbrev size_one : Entry ℕ → ℕ
size_one e = 1

abbrev calls : List (Call ℕ ℕ ℕ)
calls =
    entry_call 10 (pos 2) WantType.have false
    ∷ entry_call 10 (pos 5) WantType.block true
    ∷ cancel_call 10
    ∷ forward_call 11 (pos 1)
    ∷ cancel_forward_call 11
    ∷ presence_call 12 PresenceType.present
    ∷ block_call 12 77
    ∷ presence_call 12 PresenceType.absent
    ∷ forward_have_call 13 (1 ∷ [])
    ∷ remove_call 9
    ∷ remove_forward_call 9
    ∷ []

abbrev full : M
full = run size_one (new false) calls

-- one HAVE and one DONT_HAVE
abbrev told : M
told = add_dont_have (add_have (new true) 14) 15

full_test :
    (wantlist_of full
      ≡ record {
        entry = record { cid = 10; priority = pos 0; want_type = WantType.block };
        cancel = true;
        send_dont_have = true;
      }
        ∷ [])
    × (haves full ≡ [])
    × (blocks_of full ≡ 77 ∷ [])
    × (empty (reset full true) ≡ true)
    × (set_pending_bytes told (pos 3) ≡ record told { pending_bytes = pos 3 })
    × ((add_forward_entry {Block = ℕ} {Addr = ℕ} size_one (new false) 4 (pos 1)).1 ≡ 1)
unfolding program
full_test = (refl, refl, refl, refl, refl, refl)

new-IsWellFormed : IsWellFormed {Cid = ℕ} {Block = ℕ} {Addr = ℕ} (new false)
unfolding program
new-IsWellFormed c = (refl, refl, refl)

run-IsWellFormed_example : IsWellFormed full
unfolding program
run-IsWellFormed_example =
    run-IsWellFormed {Block = ℕ} {Addr = ℕ} size_one (new false) calls new-IsWellFormed

run-Grows_example : Grows (lookup 10 full.wantlist) (lookup 10 (run size_one full calls).wantlist)
unfolding program
run-Grows_example = run-Grows size_one full calls 10 refl

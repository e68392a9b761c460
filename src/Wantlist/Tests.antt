-- ===== src/Wantlist/Tests.antt =====
-- Runs of the wantlist, and its properties at concrete inputs.
use boxo.Base.{◌≡◌, refl, true, false, some, [], ◌∷◌, nat_key, ℕ_discrete, ℕ}
use boxo.Base.Int.{pos, negsuc}
use boxo.Base.Map.{lookup, insert, delete}
use boxo.Wire.{WantType}
use boxo.Wantlist.{
  Wantlist, new_ref_entry, new, less, insert_sorted, sort, entries, len, put, remove_key, find,
  keeps_old, add, remove, remove_type, add_all, absorb,
}
use boxo.Wantlist.Order.{IsSorted, first}
use boxo.Wantlist.Validity.{
  IsValid, adds, removes, removes_type, lists, run, new-IsValid, add-IsValid, run-IsValid,
  entries_correct,
}
use boxo.Wantlist.Merge.{stronger, run_keeps_block, find-absorb}

program : Unit {0}
unfolding new_ref_entry new less insert_sorted sort entries len put find keeps_old add remove
    remove_type add_all absorb lookup insert delete ℕ_discrete remove_key
program = tt

-- a want-have for 7, above a want-block for 5
abbrev two : Wantlist ℕ
two = (add (add new 7 (pos 9) WantType.have).0 5 (negsuc 0) WantType.block).0

abbrev low : Wantlist ℕ
low = (add new 5 (pos 1) WantType.have).0

two-IsValid : IsValid two
two-IsValid = add-IsValid _ 5 _ _ (add-IsValid new 7 _ _ new-IsValid)

low-IsValid : IsValid low
low-IsValid = add-IsValid new 5 _ _ new-IsValid

new_ref_entry_test :
    (len two ≡ 2) × ((new_ref_entry {Cid = ℕ} 5 (negsuc 0)).want_type ≡ WantType.block)
unfolding program
new_ref_entry_test = (refl, refl)

add_test : (add two 5 (pos 3) WantType.have).1 ≡ false
unfolding program
add_test = refl

remove_test : (remove two 5).1 ≡ true
unfolding program
remove_test = refl

entries_test :
    (entries two).1
    ≡ record { cid = 7; priority = pos 9; want_type = WantType.have }
      ∷ record { cid = 5; priority = negsuc 0; want_type = WantType.block }
      ∷ []
unfolding program
entries_test = refl

run-IsValid_example : IsValid (run two (lists ∷ adds 5 (pos 3) WantType.have ∷ removes 7 ∷ []))
run-IsValid_example =
    run-IsValid two (lists ∷ adds 5 (pos 3) WantType.have ∷ removes 7 ∷ []) two-IsValid

entries_correct_example :
    IsSorted (entries two).1
    × ((c : ℕ) → first c (entries two).1 ≡ find two c)
    × ((entries two).0.set ≡ two.set)
entries_correct_example = entries_correct two two-IsValid

run_keeps_block_example :
    find (run two (adds 5 (pos 3) WantType.have ∷ removes_type 5 WantType.have ∷ removes 7 ∷ [])) 5
    ≡ some (record { cid = 5; priority = negsuc 0; want_type = WantType.block })
unfolding program
run_keeps_block_example =
    run_keeps_block two 5 (record { cid = 5; priority = negsuc 0; want_type = WantType.block })
      (adds 5 (pos 3) WantType.have ∷ removes_type 5 WantType.have ∷ removes 7 ∷ []) refl
      (refl, (refl, (refl, tt))) refl

find-absorb_example : find (absorb low two).0 5 ≡ stronger (find low 5) (find two 5)
find-absorb_example = find-absorb low two 5 two-IsValid

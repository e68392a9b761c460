-- ===== src/Recall/Tests.antt =====
-- Runs of the recall wantlist, and its properties at concrete inputs.
use boxo.Base.{
  ℕ, ◌≡◌, refl, false, not, ◌&&◌, none, some, List, [], ◌∷◌, nat_key, ℕ_discrete, same,
  if◌then◌else◌,
}
use boxo.Base.Int.{pos}
use boxo.Base.Map.{lookup, insert, delete}
use boxo.Wire.{WantType}
use boxo.Wantlist.{Entry, find}
use boxo.Wantlist.Merge.{stronger, outlives}
use boxo.Recall.{
  RecallWantlist, new, add, remove, remove_type, mark_sent, note_sent_at, clear_sent_at,
}
use boxo.Recall.Marks.{Call, adds, marks, notes, removes_type, IsTimed, mark_sent_lem}

program : Unit {0}
unfolding new add remove remove_type mark_sent note_sent_at clear_sent_at lookup insert delete
    ℕ_discrete
program = tt

abbrev wanted : Entry ℕ
wanted = record { cid = 10; priority = pos 3; want_type = WantType.block }

abbrev calls : List (Call ℕ)
calls =
    adds 10 (pos 3) WantType.block ∷ marks wanted ∷ notes 10 5 ∷ removes_type 10 WantType.have ∷ []

new-IsTimed : IsTimed {Cid = ℕ} new
unfolding program
new-IsTimed c = refl

-- CID 10 pending
abbrev waiting : RecallWantlist ℕ
waiting = add new 10 (pos 3) WantType.block

mark_sent_lem_example :
    ((mark_sent waiting wanted).1 ≡ (elim (find waiting.pending 10) [
      | none ↦ false
      | some f ↦ not (outlives (some f) WantType.block)
    ]))
    × (find (mark_sent waiting wanted).0.pending 10 ≡ (
        if same {K = ℕ} 10 10 && (mark_sent waiting wanted).1
        then none
        else find waiting.pending 10))
    × (find (mark_sent waiting wanted).0.sent 10 ≡ (
        if same {K = ℕ} 10 10 && (mark_sent waiting wanted).1
        then stronger (find waiting.sent 10) (some wanted)
        else find waiting.sent 10))
mark_sent_lem_example = mark_sent_lem waiting wanted 10

-- ===== src/Recall/Marks.antt =====
-- The recorded times against the wants that were sent, and what MarkSent moves.
use boxo.Base.{
  ℕ, true, false, ◌&&◌, ◌||◌, not, none, some, List, [], ◌∷◌, Key, same, eq_of_same, if◌then◌else◌,
  is_some, arith, ◌≡◌,
}
use boxo.Base.Int.{ℤ}
use boxo.Base.Map.{has_key, lookup-insert, lookup-delete}
use boxo.Wire.{WantType}
use boxo.Wantlist.{Entry, find}
use boxo.Wantlist.Merge.{
  find-add, find-remove, find-remove_type, remove_type_result, outlives, stronger,
}
use boxo.Recall.{RecallWantlist, add, remove, remove_type, mark_sent, note_sent_at, clear_sent_at}

pub data Call (Cid : Type 0) : Type 0 where
  adds : Cid → ℤ → WantType → Call Cid
  removes : Cid → Call Cid
  removes_type : Cid → WantType → Call Cid
  marks : Entry Cid → Call Cid
  notes : Cid → ℕ → Call Cid
  clears : Cid → Call Cid

module _ {Cid : Type 0} ⦃key : Key Cid⦄ where
  pub step : RecallWantlist Cid → Call Cid → RecallWantlist Cid
  step r (adds c p t) = add r c p t
  step r (removes c) = remove r c
  step r (removes_type c t) = remove_type r c t
  step r (marks e) = (mark_sent r e).0
  step r (notes c at) = note_sent_at r c at
  step r (clears c) = clear_sent_at r c

  pub run : RecallWantlist Cid → List (Call Cid) → RecallWantlist Cid
  unfolding step
  run r [] = r
  run r (call ∷ calls) = run (step r call) calls

  -- A time is recorded only for a want that was sent.
  abbrev pub IsTimed : RecallWantlist Cid → Type 0
  IsTimed r = (c : Cid) → (not (has_key c r.sent_at) || is_some (find r.sent c)) ≡ true

  step-IsTimed : (r : RecallWantlist Cid) (call : Call Cid) → IsTimed r → IsTimed (step r call)
  unfolding step add remove remove_type mark_sent note_sent_at clear_sent_at
  step-IsTimed r (adds c p t) i h = i h
  step-IsTimed r (removes c) i h =
      ground (arith, i h, find-remove r.sent c h, lookup-delete c h r.sent_at)
  step-IsTimed r (removes_type c t) i h =
      ground
        (arith, i h, find-remove_type r.sent c h t, lookup-delete c h r.sent_at, eq_of_same c h)
  step-IsTimed r (marks e) i h =
      ground (arith, i h, find-add r.sent e.cid h e.priority e.want_type, eq_of_same e.cid h)
  step-IsTimed r (notes c at) i h =
      ground (arith, i h, lookup-insert c h at r.sent_at, eq_of_same c h)
  step-IsTimed r (clears c) i h = ground (arith, i h, lookup-delete c h r.sent_at)

  -- Through every sequence of calls a time of sending is recorded only for wants that are among the
  -- sent ones, so a cancelled want leaves no time behind.
  pub run-IsTimed :
      (r : RecallWantlist Cid) (calls : List (Call Cid)) → IsTimed r → IsTimed (run r calls)
  unfolding run
  run-IsTimed r [] i = i
  run-IsTimed r (call ∷ calls) i = run-IsTimed (step r call) calls (step-IsTimed r call i)

  -- MarkSent returns true exactly if the CID has a pending want that the type of the entry can take
  -- away. Then no want for the CID is pending any more, and the sent wants hold the stronger of the
  -- old one and the entry; otherwise the pending and the sent wants are as before.
  pub mark_sent_lem :
      (r : RecallWantlist Cid) (e : Entry Cid) (d : Cid)
      → ((mark_sent r e).1 ≡ (elim (find r.pending e.cid) [
        | none ↦ false
        | some f ↦ not (outlives (some f) e.want_type)
      ]))
        × (find (mark_sent r e).0.pending d
            ≡ (if same e.cid d && (mark_sent r e).1 then none else find r.pending d))
        × (find (mark_sent r e).0.sent d ≡ (
            if same e.cid d && (mark_sent r e).1
            then stronger (find r.sent d) (some e)
            else find r.sent d))
  unfolding mark_sent
  mark_sent_lem r e d = ground (
    arith,
    remove_type_result r.pending e.cid e.want_type,
    find-remove_type r.pending e.cid d e.want_type,
    find-add r.sent e.cid d e.priority e.want_type,
    eq_of_same e.cid d,
  )

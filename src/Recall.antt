-- ===== src/Recall.antt =====
-- bitswap/client/internal/messagequeue/messagequeue.go, the type `recallWantlist`: the wants of a
-- message queue that are pending and that were sent. Times are numbers.
pub mod Marks
mod Tests
use boxo.Base.{ℕ, Bool, true, false, ◌&&◌, not, Option, none, some, [], Key, if◌then◌else◌, is_some}
use boxo.Base.Int.{ℤ}
use boxo.Base.Map.{Map, insert, delete, has_key}
use boxo.Wire.{WantType}
use boxo.Wantlist
use boxo.Wantlist.{Wantlist, Entry}

pub record RecallWantlist (Cid : Type 0) : Type 0 where
  pub pending : Wantlist Cid
  pub sent : Wantlist Cid
  pub sent_at : Map Cid ℕ

module _ {Cid : Type 0} where
  -- `newRecallWantList`
  pub new : RecallWantlist Cid
  new = record { pending = Wantlist.new; sent = Wantlist.new; sent_at = [] }

module _ {Cid : Type 0} ⦃key : Key Cid⦄ where
  pub add : RecallWantlist Cid → Cid → ℤ → WantType → RecallWantlist Cid
  add r c priority t = record r { pending = (Wantlist.add r.pending c priority t).0 }

  pub remove : RecallWantlist Cid → Cid → RecallWantlist Cid
  remove r c = record {
    pending = (Wantlist.remove r.pending c).0;
    sent = (Wantlist.remove r.sent c).0;
    sent_at = delete c r.sent_at;
  }

  pub remove_type : RecallWantlist Cid → Cid → WantType → RecallWantlist Cid
  remove_type r c t =
      let sent' = (Wantlist.remove_type r.sent c t).0 in
      record {
        pending = (Wantlist.remove_type r.pending c t).0;
        sent = sent';
        sent_at = if is_some (Wantlist.find sent' c) then r.sent_at else delete c r.sent_at;
      }

  pub mark_sent : RecallWantlist Cid → Entry Cid → RecallWantlist Cid × Bool
  mark_sent r e =
      let (pending', removed) = Wantlist.remove_type r.pending e.cid e.want_type in
      if removed
      then (
        record r {
          pending = pending';
          sent = (Wantlist.add r.sent e.cid e.priority e.want_type).0;
        },
        true,
      )
      else (record r { pending = pending' }, false)

  -- the method `SentAt`
  pub note_sent_at : RecallWantlist Cid → Cid → ℕ → RecallWantlist Cid
  note_sent_at r c at =
      if is_some (Wantlist.find r.sent c) && not (has_key c r.sent_at)
      then record r { sent_at = insert c at r.sent_at }
      else r

  pub clear_sent_at : RecallWantlist Cid → Cid → RecallWantlist Cid
  clear_sent_at r c = record r { sent_at = delete c r.sent_at }

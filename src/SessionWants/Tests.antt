-- ===== src/SessionWants/Tests.antt =====
-- Runs of a session's wants, and their properties at concrete inputs.
use boxo.Base.{◌≡◌, refl, false, List, [], ◌∷◌, nat_key, ℕ_discrete, ℕ, contains, ◌≤◌, ◌-◌, length}
use boxo.Base.Map.{lookup, insert, delete}
use boxo.Base.Sets.{without}
use boxo.Base.ListSet.{list_sets}
use boxo.CidQueue
use boxo.SessionWants.{
  SessionWants, new, blocks_requested, go_live, pop_live, next_wants, get_next_wants, move_all,
  move_all_wants_live, send_want, wants_sent, is_wanted, drop, latency, receive_all, clean_order,
  blocks_received, broadcast_from, prepare_broadcast, cancel_pending, live_cids, nth_key,
  random_live_want, has_live_wants,
}
use boxo.SessionWants.Membership.{IsReady, Moved, get_next_wants-Moved}
use boxo.SessionWants.Flow.{blocks_received_lem}
use boxo.SessionWants.Order.{IsOrdered}
use boxo.SessionWants.History.{Call, request, receive, get_next, run, run-new}

program : Unit {0}
unfolding new blocks_requested go_live pop_live next_wants get_next_wants move_all
    move_all_wants_live send_want wants_sent is_wanted drop latency receive_all clean_order
    blocks_received broadcast_from prepare_broadcast cancel_pending live_cids nth_key
    random_live_want has_live_wants lookup insert delete without ℕ_discrete CidQueue.new
    CidQueue.pop CidQueue.push CidQueue.remove CidQueue.has CidQueue.len
program = tt

abbrev calls : List (ℕ × Call ℕ)
calls = (0, request (5 ∷ 6 ∷ 7 ∷ [])) ∷ (10, get_next) ∷ (20, receive (5 ∷ 9 ∷ [])) ∷ []

-- 6 is live since time 10, and 7 is queued
abbrev session : SessionWants ℕ (List ℕ)
session = run 0 (new 2) calls

session-IsReady : IsReady session
session-IsReady = (run-new ℕ (List ℕ) 0 2 calls).0

session-IsOrdered : IsOrdered session
session-IsOrdered = (run-new ℕ (List ℕ) 0 2 calls).1

abbrev start : SessionWants ℕ (List ℕ)
start = blocks_requested (new 2) (5 ∷ 6 ∷ 7 ∷ [])

run-new_example : IsReady session × IsOrdered session
run-new_example = run-new ℕ (List ℕ) 0 2 calls

get_next_wants-Moved_example :
    Moved session (get_next_wants 0 30 session).0 (get_next_wants 0 30 session).1
    × (length (get_next_wants 0 30 session).1 ≤ session.broadcast_limit - length session.live_wants)
get_next_wants-Moved_example = get_next_wants-Moved 0 30 session session-IsReady

blocks_received_lem_example :
    (contains 5 (blocks_received 30 start (5 ∷ 9 ∷ [])).1 ≡ is_wanted start 5)
    × (is_wanted (blocks_received 30 start (5 ∷ 9 ∷ [])).0 5 ≡ false)
unfolding ℕ_discrete
blocks_received_lem_example = blocks_received_lem 30 start (5 ∷ 9 ∷ []) 5

abbrev fresh : SessionWants ℕ (List ℕ)
fresh = new 2

reads :
    ((get_next_wants 0 10 start).1 ≡ 5 ∷ 6 ∷ [])
    × (live_cids (get_next_wants 0 10 start).0 ≡ 5 ∷ 6 ∷ [])
    × (has_live_wants fresh ≡ false)
    × (random_live_want 0 1 (get_next_wants 0 10 start).0 ≡ 6)
    × ((prepare_broadcast 40 (get_next_wants 0 10 start).0).1 ≡ 5 ∷ 6 ∷ [])
    × ((blocks_received 40 (get_next_wants 0 10 start).0 (5 ∷ [])).2 ≡ 30)
    × (CidQueue.len (cancel_pending start (6 ∷ [])).to_fetch ≡ 2)
unfolding program
reads = (refl, refl, refl, refl, refl, refl, refl)

-- ===== src/ForwardGraph/Tests.antt =====
-- Runs of the forward graph manager, and its properties at concrete inputs.
use boxo.Base.{
  true, ℕ, ◌<◌, if◌then◌else◌, ltb, ◌≡◌, refl, some, List, [], ◌∷◌, nat_key, ℕ_discrete, arith,
}
use boxo.Base.Sets.{insert_key, without}
use boxo.Base.Float.{IntOfFloat, to_float64}
use boxo.ForwardGraph.{
  Timer, Effect, Graph, hangs, random_select, close_cid_select, new, use_complete_graph,
  successor_target, add_successor, remove_successor, candidates, find_one_new_successor, remove_all,
  fill, chosen, restart, select_new_successors, set_forward_graph_degree, on_timer, add_peer,
  remove_peer, write_degree, available, get_successor_by_strategy,
}
use boxo.ForwardGraph.Choice.{
  IsInRange, Suits, random_select-IsChoice, get_successor_by_strategy_lem,
}
use boxo.ForwardGraph.Selection.{
  Selects, full_number, select_new_successors-Selects, on_timer_hangs,
}
use boxo.ForwardGraph.Protection.{protected, Tracks}
use boxo.ForwardGraph.Soundness.{state_after, IsSound}
use boxo.ForwardGraph.History.{
  Call, connects, disconnects, sets_degree, writes_degree, selects, expires, step, run,
  chosen_since_write, AllInRange, run-IsSound, run-Tracks,
}

program : Unit {0}
unfolding random_select close_cid_select new use_complete_graph successor_target add_successor
    remove_successor candidates find_one_new_successor remove_all fill chosen restart
    select_new_successors set_forward_graph_degree on_timer add_peer remove_peer write_degree
    available get_successor_by_strategy insert_key without ℕ_discrete protected state_after step run
    chosen_since_write to_float64
program = tt

-- Out of range this platform gives the least int, which is negative.
abbrev least_int_of : ℕ → ℕ
least_int_of n = if ltb n 9223372036854775808 then n else 0

least_int_of-in_range : (n : ℕ) → n < 9223372036854775808 → least_int_of n ≡ n
least_int_of-in_range n h = ground (arith, h)

instance abbrev least_int : IntOfFloat
least_int = record { int_of_float = least_int_of; in_range = least_int_of-in_range }

-- always the first peer
abbrev first : List ℕ → ℕ
first ps = 0

first-IsInRange : IsInRange first
first-IsInRange p ps = omega arith

abbrev calls : List (Call ℕ)
calls =
    connects 1 first
    ∷ connects 2 first
    ∷ connects 3 first
    ∷ disconnects 1 first
    ∷ sets_degree 6 (λ i. first)
    ∷ writes_degree 2
    ∷ disconnects 2 first
    ∷ selects (λ i. first)
    ∷ expires (λ i. first)
    ∷ connects 4 first
    ∷ []

-- three peers, of which two are successors
abbrev three : Graph ℕ
three = (run true (new 4) (connects 1 first ∷ connects 2 first ∷ connects 3 first ∷ [])).0

-- After the timer has expired, the lock is held for ever, and a new degree is still written.
run_test :
    ((run true (new 4) calls).0
      ≡ record { degree = 2; connected = 3 ∷ []; successors = 3 ∷ []; timer = Timer.spent })
    × ((run true three (expires (λ i. first) ∷ sets_degree 2 (λ i. first) ∷ [])).0 ≡ record {
      degree = 2;
      connected = 1 ∷ 2 ∷ 3 ∷ [];
      successors = 1 ∷ 2 ∷ [];
      timer = Timer.spent;
    })
    × (get_successor_by_strategy {Cid = ℕ} (close_cid_select (λ ps c. ps)) three 10 (1 ∷ [])
        ≡ some 2)
unfolding program
run_test = (refl, refl, refl)

-- 2^53 + 1 and 2^53 + 3 are between two float64s; the greatest numbers of 64 bits become 2^64.
rounds :
    (to_float64 9007199254740993 ≡ 9007199254740992)
    × (to_float64 9007199254740995 ≡ 9007199254740996)
    × (to_float64 9007199254740992 ≡ 9007199254740992)
    × (to_float64 18446744073709551614 ≡ 18446744073709551616)
    × (to_float64 18446744073709550591 ≡ 18446744073709549568)
unfolding to_float64
rounds = (refl, refl, refl, refl, refl)

new-IsSound : IsSound {Peer = ℕ} (new 4)
unfolding program
new-IsSound = (
  tt,
  λ n. record {
    connected_once = tt;
    successors_once = tt;
    are_connected = λ p h. cc;
    within = omega arith;
  },
)

calls_in_range : AllInRange calls
calls_in_range =
    let f = first-IsInRange in
    (f, (f, (f, (f, ((λ i. f), (tt, (f, ((λ i. f), ((λ i. f), (f, tt))))))))))

run-IsSound_example : IsSound (run true (new 4) calls).0
unfolding program
run-IsSound_example = run-IsSound true (new 4) calls calls_in_range new-IsSound refl

run-Tracks_example : Tracks (new 4) (run true (new 4) calls).0 (run true (new 4) calls).1
run-Tracks_example = run-Tracks true (new 4) calls

select_new_successors-Selects_example :
    Selects three (select_new_successors (λ i. first) three) × (full_number three ≡ 2)
unfolding program
select_new_successors-Selects_example =
    select_new_successors-Selects (λ i. first) three (λ i. first-IsInRange) refl (omega arith)
      (refl, (refl, (refl, tt))) refl

on_timer_hangs_example :
    (g : Graph ℕ) × (es : List (Effect ℕ)) × (on_timer (λ i. first) three ≡ hangs g es)
unfolding program
on_timer_hangs_example = on_timer_hangs (λ i. first) three refl

get_successor_by_strategy_lem_example :
    Suits three
      (1 ∷ [])
      (get_successor_by_strategy {Cid = ℕ} (random_select first) three 10 (1 ∷ []))
get_successor_by_strategy_lem_example =
    get_successor_by_strategy_lem (random_select first) three 10 (1 ∷ [])
      (λ ps. random_select-IsChoice first ps 10 first-IsInRange)

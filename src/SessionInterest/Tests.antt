-- ===== src/SessionInterest/Tests.antt =====
-- Runs of the session interest manager, and its properties at concrete inputs.
use boxo.Base.{
  ℕ, ◌≡◌, refl, true, false, none, List, [], ◌∷◌, nat_key, ℕ_discrete, contains, IsDistinct,
  append_new,
}
use boxo.Base.Map.{lookup, insert, delete}
use boxo.Base.Nested.{get2, put2, del2, restore}
use boxo.SessionInterest.{
  Manager, new, record_all, record_session_interest, record_session_forward_interest, note_deleted,
  remove_from, remove_session, clear_wants, remove_session_wants, remove_session_interested,
  is_interested, filter_session_interested, any_wants, wanted_keys, split_wanted_unwanted,
  sessions_of, interested_sessions, forward_interested_sessions,
}
use boxo.SessionInterest.Wanted.{any_interest, interested_sessions_lem, split_wanted}
use boxo.SessionInterest.History.{
  Call, request, request_forward, receive, Tables, run, tables_run, HoldsFlags, run-HoldsFlags,
}

program : Unit {0}
unfolding new record_all record_session_interest record_session_forward_interest note_deleted
    remove_from remove_session clear_wants remove_session_wants remove_session_interested
    is_interested filter_session_interested any_wants wanted_keys split_wanted_unwanted append_new
    sessions_of interested_sessions forward_interested_sessions lookup insert delete get2 put2 del2
    restore ℕ_discrete any_interest
program = tt

abbrev calls : List (Call ℕ)
calls =
    request 1 (10 ∷ 11 ∷ [])
    ∷ request 2 (11 ∷ [])
    ∷ request_forward 1 (12 ∷ [])
    ∷ receive 2 (11 ∷ [])
    ∷ []

abbrev busy : Manager ℕ
busy =
    record_session_forward_interest
      (remove_session_wants
        (record_session_interest (record_session_interest new 1 (10 ∷ 11 ∷ [])) 2 (11 ∷ [])) 2
        (11 ∷ []))
      1 (12 ∷ [])

abbrev nothing : Tables ℕ
nothing = record { wanted = λ c s. none; forwarded = λ c s. none }

busy_test :
    (filter_session_interested busy 1 ((10 ∷ 12 ∷ 13 ∷ []) ∷ []) ≡ (10 ∷ 12 ∷ []) ∷ [])
    × (interested_sessions busy [] (11 ∷ []) [] ≡ 1 ∷ 2 ∷ [])
    × (split_wanted_unwanted (λ b. b) busy (10 ∷ 13 ∷ []) ≡ (10 ∷ [], 13 ∷ []))
    × ((remove_session busy 1).1 ≡ 10 ∷ [])
    × ((remove_session_interested busy 2 (10 ∷ 11 ∷ [])).1 ≡ [])
unfolding program
busy_test = (refl, refl, refl, refl, refl)

run-HoldsFlags_example : HoldsFlags (tables_run nothing calls) (run new calls)
unfolding program
run-HoldsFlags_example = run-HoldsFlags nothing new calls (λ c s. (refl, refl))

interested_sessions_lem_example :
    (contains 2 (interested_sessions busy [] (11 ∷ []) []) ≡ true)
    × IsDistinct (interested_sessions busy [] (11 ∷ []) [])
    × (contains 2 (forward_interested_sessions busy (11 ∷ [])) ≡ true)
    × IsDistinct (forward_interested_sessions busy (11 ∷ []))
unfolding program
interested_sessions_lem_example = interested_sessions_lem busy [] (11 ∷ []) [] 2

split_wanted_example :
    (contains 11 (split_wanted_unwanted (λ b. b) busy (11 ∷ [])).0 ≡ true)
    × (contains 11 (split_wanted_unwanted (λ b. b) busy (11 ∷ [])).1 ≡ false)
unfolding program
split_wanted_example = split_wanted (λ b. b) busy (11 ∷ []) 11 1 refl refl

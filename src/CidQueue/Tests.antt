-- ===== src/CidQueue/Tests.antt =====
-- Runs of the queue, and its properties at concrete inputs.
use boxo.Base.{◌≡◌, refl, List, [], ◌∷◌, nat_key, ℕ_discrete, ℕ, arith}
use boxo.Base.Sets.{without}
use boxo.Base.ListSet.{list_sets}
use boxo.CidQueue.{Queue, new, pop_from, pop, cids, push, remove, has, len}
use boxo.CidQueue.Laws.{IsCovered, new-IsCovered, push-IsCovered, remove-IsCovered}
use boxo.CidQueue.Requeue.{occurrences, requeue_lem}

program : Unit {0}
unfolding new pop_from pop cids push remove has len without ℕ_discrete
program = tt

abbrev two : Queue ℕ (List ℕ)
two = push (push new 5) 6

-- 5 was removed, and its place is still there
abbrev stale : Queue ℕ (List ℕ)
stale = remove two 5

stale-IsCovered : IsCovered stale
stale-IsCovered =
    remove-IsCovered two 5
      (push-IsCovered (push new 5) 6 (push-IsCovered new 5 (new-IsCovered ℕ (List ℕ))))

stale_test : ((pop 0 stale).0 ≡ 6) × ((cids stale).1 ≡ 6 ∷ []) × (len stale ≡ 1)
unfolding program
stale_test = (refl, refl, refl)

requeue_lem_example :
    (occurrences 5 (cids (push (remove two 5) 5)).1 ≡ 2)
    × ((rest : List ℕ) → two.elems ≡ 5 ∷ rest → (pop 0 (push (remove two 5) 5)).0 ≡ 5)
unfolding program
requeue_lem_example =
    requeue_lem 0 5 two (record { distinct = (refl, (refl, tt)); members = λ c. ground arith }) refl

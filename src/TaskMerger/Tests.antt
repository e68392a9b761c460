-- ===== src/TaskMerger/Tests.antt =====
-- Merged tasks, and the property of merging at a concrete input.
use boxo.Base.{◌≡◌, refl, true, false, [], ◌∷◌}
use boxo.Base.Int.{pos}
use boxo.TaskMerger.{Task, see, see_all, has_new_info, learn_size, become_block, fix_work, merge}
use boxo.TaskMerger.Merging.{join, merge_lem}

program : Unit {0}
unfolding see see_all has_new_info learn_size become_block fix_work merge
program = tt

-- a want-have for a block that is there, and a want-block for one that is not known
abbrev want_have : Task
want_have = record {
  work = pos 4;
  task_data = record {
    is_want_block = false;
    send_dont_have = true;
    block_size = pos 100;
    have_block = true;
  };
}

abbrev want_block : Task
want_block = record {
  work = pos 7;
  task_data = record {
    is_want_block = true;
    send_dont_have = false;
    block_size = pos 0;
    have_block = false;
  };
}

merge_test :
    (merge want_block want_have ≡ record {
      work = pos 100;
      task_data = record {
        is_want_block = true;
        send_dont_have = true;
        block_size = pos 100;
        have_block = true;
      };
    })
    × (has_new_info want_block (want_have ∷ []) ≡ true)
unfolding program
merge_test = (refl, refl)

merge_lem_example :
    (merge want_block want_have ≡ join want_block want_have)
    × (has_new_info want_block (merge want_block want_have ∷ []) ≡ false)
merge_lem_example = merge_lem want_block want_have

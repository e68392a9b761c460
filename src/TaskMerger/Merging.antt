-- ===== src/TaskMerger/Merging.antt =====
-- What `Merge` of bitswap/server/internal/decision/taskmerger.go makes of two tasks.
use boxo.Base.{false, not, ◌&&◌, ◌||◌, [], ◌∷◌, if◌then◌else◌, arith, ◌≡◌}
use boxo.Base.Int.{ℤ}
use boxo.TaskMerger.{
  TaskData, Task, see, see_all, has_new_info, learn_size, become_block, fix_work, merge,
}

-- The size known of a block: the old one, unless only the new task has one.
abbrev pub joined_size : TaskData → TaskData → ℤ
joined_size n e =
    if e.have_block then e.block_size else if n.have_block then n.block_size else e.block_size

-- What a want-have or want-block costs: a want-block the size of its block, as far as it is known.
abbrev pub joined_work : Task → Task → ℤ
joined_work t e =
    let n = t.task_data in
    let o = e.task_data in
    if (o.is_want_block || n.is_want_block) && (o.have_block || n.have_block)
    then joined_size n o
    else if not o.is_want_block && n.is_want_block
    then t.work
    else e.work

-- the join of two tasks, field by field
abbrev pub join : Task → Task → Task
join t e = record {
  work = joined_work t e;
  task_data = record {
    is_want_block = e.task_data.is_want_block || t.task_data.is_want_block;
    send_dont_have = e.task_data.send_dont_have;
    block_size = joined_size t.task_data e.task_data;
    have_block = e.task_data.have_block || t.task_data.have_block;
  };
}

merge-join : (t e : Task) → merge t e ≡ join t e
unfolding merge learn_size become_block fix_work
merge-join t e = ground arith

-- Merge joins the two tasks field by field: the result is a want-block if either is one, knows the block
-- if either does, and has the size of the old task, if that knows the block, else of the new one, if that
-- does; the work of a want-block with a known block is its size. It wishes a DONT_HAVE exactly if the old task does: the wish of the
-- new task is dropped. Beside the result, HasNewInfo finds nothing new in the new task.
pub merge_lem : (t e : Task) → (merge t e ≡ join t e) × (has_new_info t (merge t e ∷ []) ≡ false)
unfolding has_new_info see_all see
merge_lem t e = (merge-join t e, rw (merge-join t e) (ground arith))

-- ===== src/TaskMerger.antt =====
-- bitswap/server/internal/decision/taskmerger.go: how the request queue of the server joins the tasks of
-- one CID. A task of the queue, from another repository, is its work and its data.
pub mod Merging
mod Tests
use boxo.Base.{Bool, true, false, not, ◌&&◌, ◌||◌, List, [], ◌∷◌, if◌then◌else◌}
use boxo.Base.Int.{ℤ}

-- `taskData`
pub record TaskData : Type 0 where
  pub is_want_block : Bool
  pub send_dont_have : Bool
  pub block_size : ℤ
  pub have_block : Bool

-- the fields of `peertask.Task` that are read or written
pub record Task : Type 0 where
  pub work : ℤ
  pub task_data : TaskData

-- the variables of the loop of `HasNewInfo`
pub record Seen : Type 0 where
  pub have_size : Bool
  pub want_block : Bool

pub see : TaskData → Seen → Seen
see d s = record {
  have_size = if d.have_block then true else s.have_size;
  want_block = if d.is_want_block then true else s.want_block;
}

pub see_all : List Task → Seen → Seen
unfolding see
see_all [] s = s
see_all (t ∷ ts) s = see_all ts (see t.task_data s)

pub has_new_info : Task → List Task → Bool
unfolding see_all
has_new_info task existing =
    let s = see_all existing (record { have_size = false; want_block = false }) in
    if not s.want_block && task.task_data.is_want_block
    then true
    else if not s.have_size && task.task_data.have_block
    then true
    else false

-- `if !existingTask.HaveBlock && newTask.HaveBlock { ... }`
pub learn_size : TaskData → TaskData → TaskData
learn_size n e =
    if not e.have_block && n.have_block
    then record e { have_block = n.have_block; block_size = n.block_size }
    else e

-- the replacement of a want-have by a want-block
pub become_block : Task → Task → Task
become_block task existing =
    let e = record existing.task_data { is_want_block = true } in
    if not existing.task_data.is_want_block && task.task_data.is_want_block
    then (if not e.have_block || task.task_data.have_block
        then record {
          work = task.work;
          task_data = record e { have_block = task.task_data.have_block };
        }
        else record existing { task_data = e })
    else existing

-- `if existingTask.IsWantBlock && existingTask.HaveBlock { ... }`
pub fix_work : Task → Task
fix_work t =
    if t.task_data.is_want_block && t.task_data.have_block
    then record t { work = t.task_data.block_size }
    else t

-- `Merge` returns the existing task that it changes.
pub merge : Task → Task → Task
unfolding learn_size become_block fix_work
merge task existing = fix_work (
    become_block task
      (record existing { task_data = learn_size task.task_data existing.task_data }))

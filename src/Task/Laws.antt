-- ===== src/Task/Laws.antt =====
-- src/lc_task.c: the current task of a thread.
use casting.Base.{ℕ, ◌≡◌, refl, Option, none, some, List, [], ◌∷◌}
use casting.Task.{task_set_current, task_current}

-- The calls of `task_set_current` in a thread, in order.
abbrev pub set_all : List ℕ → Option ℕ → Option ℕ
set_all [] current = current
set_all (tid ∷ tids) current = set_all tids (task_set_current tid current)

stays : (tid : ℕ) (tids : List ℕ) → set_all tids (some tid) ≡ some tid
unfolding task_set_current
stays tid [] = refl
stays tid (t ∷ tids) = stays tid tids

-- In a thread that has no current task, after any sequence of calls of `task_set_current`,
-- `task_current` returns the id of the first call.
pub task_current_sticks : (tid : ℕ) (tids : List ℕ) → task_current (set_all (tid ∷ tids) none) ≡ tid
unfolding task_current task_set_current
task_current_sticks tid tids = rw (stays tid tids) refl

-- ===== src/ThreadPool/Tests.antt =====
-- The theorems on the pool of threads at a pool of two workers with one task.
use my_rtsp_server.Prelude.{ℕ, ◌≡◌, ◌≤◌, refl, false, [], ◌∷◌, ◌++◌, arith}
use my_rtsp_server.ThreadPool.{
  testing, ThreadPool, using, new, add_task, Reach, start, later, add, Step,
}
use my_rtsp_server.ThreadPool.Fifo.{Reach-fifo}
use my_rtsp_server.ThreadPool.Progress.{Steps, Reach-taken}
use my_rtsp_server.ThreadPool.LostWakeup.{stuck, cancel_threads_deadlock}

abbrev one_task : ThreadPool
one_task = record {
  tasks = record { task_que = 7 ∷ []; quit = false; added = 7 ∷ []; taken = [] };
  thread_arr = testing ∷ testing ∷ [];
  owner = using;
}

one_task-Reach : Reach 2 one_task
unfolding new add_task
one_task-Reach = later start (add 7 refl refl)

Reach-fifo_example : one_task.tasks.taken ++ one_task.tasks.task_que ≡ one_task.tasks.added
Reach-fifo_example = Reach-fifo one_task-Reach

Reach-taken_example :
    (n : ℕ) × (q : ThreadPool) × (n ≤ 3)
    × Steps n one_task q
    × (q.tasks.taken ≡ one_task.tasks.taken ++ (7 ∷ []))
Reach-taken_example = Reach-taken 7 [] (omega arith) one_task-Reach refl refl

cancel_threads_deadlock_example : Reach 2 (stuck 2) × ¬ Step (stuck 2) (new 2)
cancel_threads_deadlock_example = cancel_threads_deadlock 2 (new 2) (omega arith)

-- ===== src/ThreadPool/Given.antt =====
-- A pool that its owner gives tasks while the workers run: every order of their steps.
use my_rtsp_server.Prelude.{
  ℕ, ◌≡◌, refl, ap, ◌∙◌, false, some, List, [], ◌∷◌, ◌++◌, get_elem?, set, arith,
}
use my_rtsp_server.ThreadPool.{
  Worker, testing, locking, asleep, woken, handling, done, using, is_asleep, any, Tasks, ThreadPool,
  new, take_from, handle_task, add_task, work, add, add_and_wake, Reach, start, later, spurious,
}
use my_rtsp_server.ThreadPool.Fifo.{Reach-fifo}

-- The pools that `AddTask` was called on with the tasks `ts`, in this order.
pub data Given (num : ℕ) : List ℕ → ThreadPool → Type 0 where
  created : Given num [] (new num)
  gives :
      {ts : List ℕ} {p : ThreadPool} (task : ℕ)
      → Given num ts p
      → any is_asleep p.thread_arr ≡ false
      → Given num (ts ++ (task ∷ [])) (record p { tasks = add_task task p.tasks })
  gives_and_wakes :
      {ts : List ℕ} {p : ThreadPool} (task i : ℕ)
      → Given num ts p
      → get_elem? p.thread_arr i ≡ some asleep
      → Given num
          (ts ++ (task ∷ []))
          (record p { tasks = add_task task p.tasks; thread_arr = set p.thread_arr i woken })
  works :
      {ts : List ℕ} {p : ThreadPool} (i : ℕ) (w w' : Worker) (s' : Tasks)
      → Given num ts p
      → get_elem? p.thread_arr i ≡ some w
      → handle_task w p.tasks ≡ some (w', s')
      → Given num ts (record p { tasks = s'; thread_arr = set p.thread_arr i w' })
  wakes :
      {ts : List ℕ} {p : ThreadPool} (i : ℕ)
      → Given num ts p
      → get_elem? p.thread_arr i ≡ some asleep
      → Given num ts (record p { thread_arr = set p.thread_arr i woken })

take_from-added : (que : List ℕ) (w : Worker) (s : Tasks) → (take_from que w s).1.added ≡ s.added
take_from-added [] w s = refl
take_from-added (t ∷ ts) w s = ground arith

handle_task-added :
    (w w' : Worker) (s s' : Tasks) → handle_task w s ≡ some (w', s') → s'.added ≡ s.added
unfolding handle_task
handle_task-added testing w' s s' e = ground arith
handle_task-added locking w' s s' e = ground (arith, take_from-added s.task_que asleep s)
handle_task-added asleep w' s s' e = cc
handle_task-added woken w' s s' e = ground (arith, take_from-added s.task_que testing s)
handle_task-added (handling t) w' s s' e = ground arith
handle_task-added done w' s s' e = cc

Given-using : {num : ℕ} {ts : List ℕ} {p : ThreadPool} → Given num ts p → p.owner ≡ using
unfolding new
Given-using created = refl
Given-using (gives task g a) = Given-using g
Given-using (gives_and_wakes task i g a) = Given-using g
Given-using (works i w w' s' g a e) = Given-using g
Given-using (wakes i g a) = Given-using g

pub Given-Reach : {num : ℕ} {ts : List ℕ} {p : ThreadPool} → Given num ts p → Reach num p
Given-Reach created = start
Given-Reach (gives task g a) = later (Given-Reach g) (add task (Given-using g) a)
Given-Reach (gives_and_wakes task i g a) =
    later (Given-Reach g) (add_and_wake task i (Given-using g) a)
Given-Reach (works i w w' s' g a e) = later (Given-Reach g) (work i w w' s' a e)
Given-Reach (wakes i g a) = spurious i (Given-Reach g) a

Given-added : {num : ℕ} {ts : List ℕ} {p : ThreadPool} → Given num ts p → p.tasks.added ≡ ts
unfolding new add_task
Given-added created = refl
Given-added (gives task g a) = ap (λ l. l ++ (task ∷ [])) (Given-added g)
Given-added (gives_and_wakes task i g a) = ap (λ l. l ++ (task ∷ [])) (Given-added g)
Given-added (works {p = p} i w w' s' g a e) = handle_task-added w w' p.tasks s' e ∙ Given-added g
Given-added (wakes i g a) = Given-added g

-- What the workers have taken and what waits are the tasks given, in their order.
pub Given-fifo :
    {num : ℕ} {ts : List ℕ} {p : ThreadPool}
    → Given num ts p
    → p.tasks.taken ++ p.tasks.task_que ≡ ts
Given-fifo g = Reach-fifo (Given-Reach g) ∙ Given-added g

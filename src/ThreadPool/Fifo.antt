-- ===== src/ThreadPool/Fifo.antt =====
-- The queue: every task that is added is taken at most once, in the order of the additions.
use my_rtsp_server.Prelude.{
  ℕ, ◌≡◌, refl, sym, ap, ◌∙◌, some, List, [], ◌∷◌, ◌++◌, append_assoc, arith, Bool-cases, inl, inr,
}
use my_rtsp_server.ThreadPool.{
  Worker, testing, locking, asleep, woken, handling, done, Tasks, ThreadPool, new, take_from,
  handle_task, add_task, Step, work, add, add_and_wake, cancel, notify_all, join, Reach, start,
  later, spurious,
}

abbrev IsFifo : Tasks → Type 0
IsFifo s = s.taken ++ s.task_que ≡ s.added

take_from-IsFifo :
    (que : List ℕ) (w : Worker) (s : Tasks)
    → que ≡ s.task_que
    → IsFifo s
    → IsFifo (take_from que w s).1
take_from-IsFifo [] w s e h = h
take_from-IsFifo (t ∷ ts) w s e h = elim (Bool-cases s.quit) [
  | inl q ↦ rw q h
  | inr q ↦ rw q (append_assoc s.taken (t ∷ []) ts ∙ ap (◌++◌ s.taken) e ∙ h)
]

handle_task-IsFifo :
    (w w' : Worker) (s s' : Tasks) → handle_task w s ≡ some (w', s') → IsFifo s → IsFifo s'
unfolding handle_task
handle_task-IsFifo testing w' s s' e h = ground arith
handle_task-IsFifo locking w' s s' e h = ground (arith, take_from-IsFifo s.task_que asleep s refl h)
handle_task-IsFifo asleep w' s s' e h = cc
handle_task-IsFifo woken w' s s' e h = ground (arith, take_from-IsFifo s.task_que testing s refl h)
handle_task-IsFifo (handling t) w' s s' e h = ground arith
handle_task-IsFifo done w' s s' e h = cc

add_task-IsFifo : (task : ℕ) (s : Tasks) → IsFifo s → IsFifo (add_task task s)
unfolding add_task
add_task-IsFifo task s h =
    sym (append_assoc s.taken s.task_que (task ∷ [])) ∙ ap (λ l. l ++ task ∷ []) h

Step-IsFifo : {p q : ThreadPool} → Step p q → IsFifo p.tasks → IsFifo q.tasks
Step-IsFifo {p} (work i w w' s' e f) h = handle_task-IsFifo w w' p.tasks s' f h
Step-IsFifo {p} (add task o n) h = add_task-IsFifo task p.tasks h
Step-IsFifo {p} (add_and_wake task i o e) h = add_task-IsFifo task p.tasks h
Step-IsFifo (cancel o) h = h
Step-IsFifo (notify_all o) h = h
Step-IsFifo (join o d) h = h

-- In every reachable state, the tasks that workers have taken and those that still wait are, in
-- this order, the tasks that were added: none is lost, made double or overtaken.
pub Reach-fifo :
    {num : ℕ} {p : ThreadPool} → Reach num p → p.tasks.taken ++ p.tasks.task_que ≡ p.tasks.added
unfolding new
Reach-fifo start = refl
Reach-fifo (later r st) = Step-IsFifo st (Reach-fifo r)
Reach-fifo (spurious i r e) = Reach-fifo r

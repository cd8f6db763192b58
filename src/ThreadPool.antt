-- ===== src/ThreadPool.antt =====
-- include/base/threadpool.h and src/base/threadpool.cpp: the pool of worker threads, as a step
-- relation. A step is what a thread does while it holds the mutex, or one access outside of it;
-- waiting on the condition variable gives the mutex back. A task is a number.
pub mod Fifo
pub mod Given
pub mod Progress
pub mod LostWakeup
mod Tests
use my_rtsp_server.Prelude.{
  ℕ, zero, suc, ◌≡◌, Bool, true, false, ◌&&◌, ◌||◌, Option, none, some, List, [], ◌∷◌, ◌++◌, map,
  if◌then◌else◌, get_elem?, set, replicate,
}

-- Where a worker stands in `HandleTask`: at the test of the loop, before the lock, in the wait,
-- behind a notification, at `task.Handle()`, or behind the loop.
pub data Worker : Type 0 where
  testing locking asleep woken : Worker
  handling : ℕ → Worker
  done : Worker

-- Where the thread that owns the pool stands: it uses the pool, or it is in `CancelThreads`, behind
-- the first critical section, at the joins, or behind them.
pub data Owner : Type 0 where
  using notifying joining finished : Owner

-- `added` and `taken` are traces of the queue: what was pushed and what was popped.
pub record Tasks : Type 0 where
  pub task_que : List ℕ
  pub quit : Bool
  pub added : List ℕ
  pub taken : List ℕ

pub record ThreadPool : Type 0 where
  pub tasks : Tasks
  pub thread_arr : List Worker
  pub owner : Owner

unfoldable pub new : ℕ → ThreadPool
new num = record {
  tasks = record { task_que = []; quit = false; added = []; taken = [] };
  thread_arr = replicate num testing;
  owner = using;
}

-- The end of the critical section of `HandleTask`, from the queue, with what happens on an empty
-- one.
abbrev pub take_from : List ℕ → Worker → Tasks → Worker × Tasks
take_from [] on_empty s = (on_empty, s)
take_from (t ∷ ts) on_empty s =
    if s.quit
    then (done, s)
    else (handling t, record s { task_que = ts; taken = s.taken ++ (t ∷ []) })

abbrev pub take_task : Worker → Tasks → Worker × Tasks
take_task on_empty s = take_from s.task_que on_empty s

-- The next step of a worker; a worker that waits or has left the loop has none.
unfoldable pub handle_task : Worker → Tasks → Option (Worker × Tasks)
handle_task testing s = some ((if s.quit then done else locking), s)
handle_task locking s = some (take_task asleep s)
handle_task asleep s = none
handle_task woken s = some (if s.quit then (done, s) else take_task testing s)
handle_task (handling t) s = some (testing, s)
handle_task done s = none

unfoldable pub add_task : ℕ → Tasks → Tasks
add_task task s = record s { task_que = s.task_que ++ (task ∷ []); added = s.added ++ (task ∷ []) }

abbrev pub notified : Worker → Worker
notified testing = testing
notified locking = locking
notified asleep = woken
notified woken = woken
notified (handling t) = handling t
notified done = done

abbrev pub is_asleep : Worker → Bool
is_asleep testing = false
is_asleep locking = false
is_asleep asleep = true
is_asleep woken = false
is_asleep (handling t) = false
is_asleep done = false

abbrev pub any : (Worker → Bool) → List Worker → Bool
any p [] = false
any p (w ∷ ws) = p w || any p ws

abbrev pub is_done : Worker → Bool
is_done testing = false
is_done locking = false
is_done asleep = false
is_done woken = false
is_done (handling t) = false
is_done done = true

abbrev pub all_done : List Worker → Bool
all_done [] = true
all_done (w ∷ ws) = is_done w && all_done ws

-- The steps of the program's threads. `notify_one` wakes one of the waiting workers, if there is
-- one.
pub data Step : ThreadPool → ThreadPool → Type 0 where
  work :
      {p : ThreadPool} (i : ℕ) (w w' : Worker) (s' : Tasks)
      → get_elem? p.thread_arr i ≡ some w
      → handle_task w p.tasks ≡ some (w', s')
      → Step p (record p { tasks = s'; thread_arr = set p.thread_arr i w' })
  add :
      {p : ThreadPool} (task : ℕ)
      → p.owner ≡ using
      → any is_asleep p.thread_arr ≡ false
      → Step p (record p { tasks = add_task task p.tasks })
  add_and_wake :
      {p : ThreadPool} (task i : ℕ)
      → p.owner ≡ using
      → get_elem? p.thread_arr i ≡ some asleep
      → Step p (record p { tasks = add_task task p.tasks; thread_arr = set p.thread_arr i woken })
  cancel :
      {p : ThreadPool}
      → p.owner ≡ using
      → Step p (record p { tasks = record (p.tasks) { quit = true }; owner = notifying })
  notify_all :
      {p : ThreadPool}
      → p.owner ≡ notifying
      → Step p (record p { thread_arr = map notified p.thread_arr; owner = joining })
  join :
      {p : ThreadPool}
      → p.owner ≡ joining
      → all_done p.thread_arr ≡ true
      → Step p (record p { thread_arr = []; owner = finished })

-- The states that a pool of `num` workers can be in. The wait of a condition variable may also end
-- with no notification.
pub data Reach (num : ℕ) : ThreadPool → Type 0 where
  start : Reach num (new num)
  later : {p q : ThreadPool} → Reach num p → Step p q → Reach num q
  spurious :
      {p : ThreadPool} (i : ℕ)
      → Reach num p
      → get_elem? p.thread_arr i ≡ some asleep
      → Reach num (record p { thread_arr = set p.thread_arr i woken })

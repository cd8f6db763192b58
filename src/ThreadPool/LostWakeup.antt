-- ===== src/ThreadPool/LostWakeup.antt =====
-- The destructor of the pool can wait for ever.
use my_rtsp_server.Prelude.{
  ℕ, zero, suc, ◌+◌, ◌<◌, ◌≡◌, refl, ap, subst, ◌∙◌, true, false, some, List, [], ◌∷◌, map, arith,
  get_elem?, set, replicate,
}
use my_rtsp_server.ThreadPool.{
  Worker, testing, locking, asleep, Owner, using, joining, Tasks, ThreadPool, new, handle_task,
  notified, all_done, Step, work, add, add_and_wake, cancel, notify_all, join, Reach, start, later,
}

abbrev at_place : ℕ → Worker → List Worker → List Worker
at_place zero v l = l
at_place (suc k) v l = v ∷ at_place k v l

get_elem?-at_place :
    (k : ℕ) (v w : Worker) (l : List Worker) → get_elem? (at_place k v (w ∷ l)) k ≡ some w
get_elem?-at_place zero v w l = refl
get_elem?-at_place (suc k) v w l = get_elem?-at_place k v w l

set-at_place :
    (k : ℕ) (v w : Worker) (l : List Worker) → set (at_place k v (w ∷ l)) k v ≡ at_place (suc k) v l
set-at_place zero v w l = refl
set-at_place (suc k) v w l = ap (◌∷◌ v) (set-at_place k v w l)

at_place-nil : (k : ℕ) (v : Worker) → at_place k v [] ≡ replicate k v
at_place-nil zero v = refl
at_place-nil (suc k) v = ap (◌∷◌ v) (at_place-nil k v)

-- The workers go one by one from `w` to `v`, where that step changes nothing else.
advance :
    (num k m : ℕ) (v w : Worker) (s : Tasks) (o : Owner) {n : ℕ}
    → n ≡ k + m
    → handle_task w s ≡ some (v, s)
    → Reach num (record { tasks = s; thread_arr = at_place k v (replicate m w); owner = o })
    → Reach num (record { tasks = s; thread_arr = replicate n v; owner = o })
advance num k zero v w s o e step_eq r =
    subst (λ l. Reach num (record { tasks = s; thread_arr = l; owner = o }))
      (at_place-nil k v ∙ ap (λ n. replicate n v) (omega arith)) r
advance num k (suc m) v w s o e step_eq r =
    let moved = later r (work k w v s (get_elem?-at_place k v w (replicate m w)) step_eq) in
    advance num (suc k) m v w s o (omega arith) step_eq (
      subst (λ l. Reach num (record { tasks = s; thread_arr = l; owner = o }))
        (set-at_place k v w (replicate m w)) moved)

map-replicate : (n : ℕ) → map notified (replicate n locking) ≡ replicate n locking
map-replicate zero = refl
map-replicate (suc n) = ap (◌∷◌ locking) (map-replicate n)

abbrev quitting : Tasks
quitting = record { task_que = []; quit = true; added = []; taken = [] }

-- Every worker sleeps, and the owner waits for them to end.
abbrev pub stuck : ℕ → ThreadPool
stuck num = record { tasks = quitting; thread_arr = replicate num asleep; owner = joining }

stuck-Reach : (num : ℕ) → Reach num (stuck num)
unfolding new handle_task
stuck-Reach num =
    let tested =
      advance num 0 num locking testing (record quitting { quit = false }) using (omega arith) refl
        start in
    let noticed = later (later tested (cancel refl)) (notify_all refl) in
    let kept =
      subst (λ l. Reach num (record { tasks = quitting; thread_arr = l; owner = joining }))
        (map-replicate num) noticed in
    advance num 0 num asleep locking quitting joining (omega arith) refl kept

all_asleep : (n i : ℕ) {w : Worker} → get_elem? (replicate n asleep) i ≡ some w → w ≡ asleep
all_asleep zero i e = cc
all_asleep (suc n) zero e = cc
all_asleep (suc n) (suc i) e = all_asleep n i e

not_all_done : (n : ℕ) → 0 < n → all_done (replicate n asleep) ≡ false
not_all_done zero pos = absurd (omega arith)
not_all_done (suc n) pos = refl

Step-stuck : (num : ℕ) {p q : ThreadPool} → 0 < num → Step p q → p ≡ stuck num → ⊥
unfolding handle_task
Step-stuck num {p} pos (work i w w' s' e f) h =
    let place = subst (λ (r : ThreadPool). get_elem? r.thread_arr i ≡ some w) h e in
    let sleeps = all_asleep num i place in
    let none_left = subst (λ v. handle_task v p.tasks ≡ some (w', s')) sleeps f in cc
Step-stuck num pos (add task u n) h = cc
Step-stuck num pos (add_and_wake task i u e) h = cc
Step-stuck num pos (cancel u) h = cc
Step-stuck num pos (notify_all u) h = cc
Step-stuck num pos (join u d) h =
    let ended = subst (λ (r : ThreadPool). all_done r.thread_arr ≡ true) h d in
    let not_ended = not_all_done num pos in cc

-- A pool of at least one worker can come to a state in which every worker waits and the owner
-- waits for them to end, and no step of the pool leads out of it, so that only a wake-up that
-- nobody asked for could: a worker that saw `m_quit_` unset before `CancelThreads` set it goes to
-- sleep behind the notification.
pub cancel_threads_deadlock :
    (num : ℕ) (q : ThreadPool) → 0 < num → Reach num (stuck num) × ¬ Step (stuck num) q
cancel_threads_deadlock num q pos = (stuck-Reach num, λ st. Step-stuck num pos st refl)

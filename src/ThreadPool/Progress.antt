-- ===== src/ThreadPool/Progress.antt =====
-- No task waits while every worker sleeps.
use my_rtsp_server.Prelude.{
  ℕ, zero, suc, ◌≤◌, ◌<◌, ◌≡◌, refl, sym, subst, ◌∙◌, ◌⊎◌, inl, inr, Bool, true, false, not, ◌||◌,
  Option, some, List, [], ◌∷◌, ◌++◌, arith, Bool-cases, Option-cases, get_elem?, set, length,
  replicate, get_elem?-set_self, length-set, length-replicate, ◌>>=◌,
}
use my_rtsp_server.ThreadPool.{
  Worker, testing, locking, asleep, woken, handling, done, using, Tasks, ThreadPool, new, take_from,
  handle_task, add_task, is_asleep, is_done, any, Step, work, add, add_and_wake, cancel, notify_all,
  join, Reach, start, later, spurious,
}

abbrev is_awake : Worker → Bool
is_awake w = not (is_asleep w || is_done w)

any-set :
    (p : Worker → Bool) (l : List Worker) (i : ℕ) {w : Worker} (v : Worker)
    → get_elem? l i ≡ some w
    → p v ≡ true
    → any p (set l i v) ≡ true
any-set p [] i v e h = cc
any-set p (x ∷ l) zero v e h = ground arith
any-set p (x ∷ l) (suc i) {w} v e h = ground (arith, any-set p l i {w = w} v)

none-set :
    (p : Worker → Bool) (l : List Worker) (i : ℕ) (v : Worker)
    → any p l ≡ false
    → p v ≡ false
    → any p (set l i v) ≡ false
none-set p [] i v e h = refl
none-set p (x ∷ l) zero v e h = ground arith
none-set p (x ∷ l) (suc i) v e h = ground (arith, none-set p l i v)

none-get_elem? :
    (p : Worker → Bool) (l : List Worker) (i : ℕ) {w : Worker}
    → any p l ≡ false
    → get_elem? l i ≡ some w
    → p w ≡ false
none-get_elem? p [] i h e = cc
none-get_elem? p (x ∷ l) zero h e = ground arith
none-get_elem? p (x ∷ l) (suc i) h e = none-get_elem? p l i (ground arith) e

-- Who neither sleeps nor is done is awake.
any-is_awake :
    (l : List Worker)
    → 0 < length l
    → any is_asleep l ≡ false
    → any is_done l ≡ false
    → any is_awake l ≡ true
any-is_awake [] n a d = absurd (omega arith)
any-is_awake (w ∷ l) n a d = ground arith

-- What holds while the owner uses the pool.
record IsActive (num : ℕ) (s : Tasks) (arr : List Worker) : Type 0 where
  running : s.quit ≡ false
  staffed : length arr ≡ num
  staying : any is_done arr ≡ false
  attended : (s.task_que ≡ []) ⊎ (any is_awake arr ≡ true)

-- What a worker's step comes to.
record Acts (w' : Worker) (s s' : Tasks) : Type 0 where
  same_quit : s'.quit ≡ s.quit
  stays : is_done w' ≡ false
  attends : (s'.task_que ≡ []) ⊎ (is_awake w' ≡ true)

take_from-Acts :
    (que : List ℕ) (w : Worker) (s : Tasks)
    → que ≡ s.task_que
    → s.quit ≡ false
    → is_done w ≡ false
    → Acts (take_from que w s).0 s (take_from que w s).1
take_from-Acts [] w s e q d = record { same_quit = refl; stays = d; attends = inl (sym e) }
take_from-Acts (t ∷ ts) w s e q d =
    rw q (record { same_quit = refl; stays = refl; attends = inr refl })

handle_task-Acts :
    (w w' : Worker) (s s' : Tasks) → handle_task w s ≡ some (w', s') → s.quit ≡ false → Acts w' s s'
unfolding handle_task
handle_task-Acts testing w' s s' e q = ground arith
handle_task-Acts locking w' s s' e q =
    ground (arith, take_from-Acts s.task_que asleep s refl q refl)
handle_task-Acts asleep w' s s' e q = cc
handle_task-Acts woken w' s s' e q = ground (arith, take_from-Acts s.task_que testing s refl q refl)
handle_task-Acts (handling t) w' s s' e q = ground arith
handle_task-Acts done w' s s' e q = cc

IsActive-work :
    (num i : ℕ) (w w' : Worker) (s s' : Tasks) (arr : List Worker)
    → IsActive num s arr
    → get_elem? arr i ≡ some w
    → handle_task w s ≡ some (w', s')
    → IsActive num s' (set arr i w')
IsActive-work num i w w' s s' arr a e f =
    let acts = handle_task-Acts w w' s s' f a.running in
    record {
      running = acts.same_quit ∙ a.running;
      staffed = length-set arr i w' ∙ a.staffed;
      staying = none-set is_done arr i w' a.staying acts.stays;
      attended = elim acts.attends [ inl q ↦ inl q | inr q ↦ inr (any-set is_awake arr i w' e q) ];
    }

-- Whoever is added to has someone awake.
IsActive-add :
    (num task : ℕ) (s : Tasks) (arr arr' : List Worker)
    → IsActive num s arr
    → length arr' ≡ num
    → any is_done arr' ≡ false
    → any is_awake arr' ≡ true
    → IsActive num (add_task task s) arr'
unfolding add_task
IsActive-add num task s arr arr' a n d w = record {
  running = a.running;
  staffed = n;
  staying = d;
  attended = inr w;
}

Inv : ℕ → ThreadPool → Type 0
Inv num p = p.owner ≡ using → IsActive num p.tasks p.thread_arr

Step-Inv : {num : ℕ} {p q : ThreadPool} → 0 < num → Step p q → Inv num p → Inv num q
unfolding Inv
Step-Inv {num} {p} pos (work i w w' s' e f) inv o =
    IsActive-work num i w w' p.tasks s' p.thread_arr (inv o) e f
Step-Inv {num} {p} pos (add task u n) inv o =
    let a = inv o in
    IsActive-add num task p.tasks p.thread_arr p.thread_arr a a.staffed a.staying
      (any-is_awake p.thread_arr (omega (arith, a.staffed)) n a.staying)
Step-Inv {num} {p} pos (add_and_wake task i u e) inv o =
    let a = inv o in
    IsActive-add num task p.tasks p.thread_arr (set p.thread_arr i woken) a
      (length-set p.thread_arr i woken ∙ a.staffed)
      (none-set is_done p.thread_arr i woken a.staying refl)
      (any-set is_awake p.thread_arr i woken e refl)
Step-Inv pos (cancel u) inv o = cc
Step-Inv pos (notify_all u) inv o = cc
Step-Inv pos (join u d) inv o = cc

none_done : (num : ℕ) → any is_done (replicate num testing) ≡ false
none_done zero = refl
none_done (suc num) = none_done num

Reach-Inv : {num : ℕ} {p : ThreadPool} → 0 < num → Reach num p → Inv num p
unfolding Inv new
Reach-Inv {num} pos start o = record {
  running = refl;
  staffed = length-replicate num testing;
  staying = none_done num;
  attended = inl refl;
}
Reach-Inv pos (later r st) o = Step-Inv pos st (Reach-Inv pos r) o
Reach-Inv pos (spurious {p = p} i r e) o =
    let a = Reach-Inv pos r o in
    record {
      running = a.running;
      staffed = length-set p.thread_arr i woken ∙ a.staffed;
      staying = none-set is_done p.thread_arr i woken a.staying refl;
      attended = inr (any-set is_awake p.thread_arr i woken e refl);
    }

-- Runs of so many steps.
pub data Steps : ℕ → ThreadPool → ThreadPool → Type 0 where
  stop : {p : ThreadPool} → Steps 0 p p
  step : {n : ℕ} {p q r : ThreadPool} → Step p q → Steps n q r → Steps (suc n) p r

-- A worker alone.
solo : ℕ → Worker → Tasks → Option (Worker × Tasks)
solo zero w s = some (w, s)
solo (suc n) w s = do (w', s') ← handle_task w s; solo n w' s'

solo-Steps :
    (n i : ℕ) (w : Worker) {w' : Worker} (s' : Tasks) (p : ThreadPool)
    → get_elem? p.thread_arr i ≡ some w
    → solo n w p.tasks ≡ some (w', s')
    → (arr : List Worker) × Steps n p (record p { tasks = s'; thread_arr = arr })
unfolding solo
solo-Steps zero i w s' p e f =
    let same : p.tasks ≡ s' = cc in
    (p.thread_arr, subst (λ t. Steps 0 p (record p { tasks = t })) same stop)
solo-Steps (suc n) i w s' p e f = elim (Option-cases (handle_task w p.tasks)) [
  | inl ended ↦ let g = rw ended at f in cc
  | inr ((w1, s1), found) ↦
      let g = rw found at f in
      let (arr, steps) =
        solo-Steps n i w1 s' (record p { tasks = s1; thread_arr = set p.thread_arr i w1 })
          (get_elem?-set_self p.thread_arr i w1 e) g in
      (arr, step (work i w w1 s1 e found) steps)
]

take_from-cons :
    (que : List ℕ) (w : Worker) (s : Tasks) (t : ℕ) (ts : List ℕ)
    → que ≡ t ∷ ts
    → s.quit ≡ false
    → take_from que w s ≡ (handling t, record s { task_que = ts; taken = s.taken ++ (t ∷ []) })
take_from-cons [] w s t ts e q = cc
take_from-cons (x ∷ xs) w s t ts e q = ground arith

taken_by :
    (w : Worker) (s : Tasks) (t : ℕ) (ts : List ℕ)
    → is_awake w ≡ true
    → s.quit ≡ false
    → s.task_que ≡ t ∷ ts
    → (n : ℕ) × (n ≤ 3)
      × (solo n w s ≡ some (handling t, record s { task_que = ts; taken = s.taken ++ (t ∷ []) }))
unfolding solo handle_task
taken_by testing s t ts a q e =
    (2, omega arith, simp (q, take_from-cons s.task_que asleep s t ts e q))
taken_by locking s t ts a q e = (1, omega arith, simp (take_from-cons s.task_que asleep s t ts e q))
taken_by asleep s t ts a q e = cc
taken_by woken s t ts a q e =
    (1, omega arith, simp (q, take_from-cons s.task_que testing s t ts e q))
taken_by (handling u) s t ts a q e =
    (3, omega arith, simp (q, take_from-cons s.task_que asleep s t ts e q))
taken_by done s t ts a q e = cc

awake_place :
    (l : List Worker)
    → any is_awake l ≡ true
    → (i : ℕ) × (w : Worker) × (get_elem? l i ≡ some w) × (is_awake w ≡ true)
awake_place [] h = cc
awake_place (w ∷ l) h = elim (Bool-cases (is_awake w)) [
  | inl a ↦ (0, w, refl, a)
  | inr a ↦ let (i, w', e, a') = awake_place l (rw a at h) in (suc i, w', e, a')
]

-- While the owner uses a pool of at least one worker, a task at the front of the queue never waits
-- for a wake-up that is lost: from every reachable state, a run of at most three steps of the pool
-- takes it off the queue.
pub Reach-taken :
    {num : ℕ} {p : ThreadPool} (t : ℕ) (ts : List ℕ)
    → 0 < num
    → Reach num p
    → p.owner ≡ using
    → p.tasks.task_que ≡ t ∷ ts
    → (n : ℕ) × (q : ThreadPool) × (n ≤ 3)
      × Steps n p q
      × (q.tasks.taken ≡ p.tasks.taken ++ (t ∷ []))
unfolding Inv
Reach-taken {p} t ts pos r o e =
    let a = Reach-Inv pos r o in
    let busy : any is_awake p.thread_arr ≡ true = elim a.attended [ inl q ↦ cc | inr q ↦ q ] in
    let (i, w, at, awake) = awake_place p.thread_arr busy in
    let (n, small, run) = taken_by w p.tasks t ts awake a.running e in
    let (arr, steps) =
      solo-Steps n i w (record (p.tasks) { task_que = ts; taken = p.tasks.taken ++ (t ∷ []) }) p at
        run in
    (n, _, small, steps, refl)

-- ===== src/Timer/Invariant.antt =====
-- The invariant of the two maps, and that the loop over the due timers ends.
use mathlib.Core.List.{head?}
use my_rtsp_server.Prelude.{
  ℕ, zero, suc, ◌+◌, ◌*◌, ◌<◌, ◌≡◌, refl, Bool, true, false, ◌||◌, Option, none, some, List, [],
  ◌∷◌, arith, leb, ltb, ◌==◌, length, Option-cases, Bool-cases, subst, ap, add32, inl, inr, ◌⊎◌,
  Returns, Returns->>=,
}
use my_rtsp_server.Timer.{
  Timer, Entry, TimerManager, ItimerSpec, new, find_timer, timer_fd_set_time, modify_timeout, empty,
  add_timer, remove_timer, again, fire, Round, over, fault, next, round, fire_due,
  handle_timer_event,
}
use my_rtsp_server.Timer.Events.{
  All, has_id, has_key, has_id-insert_event, has_id-erase_event, has_key-erase_timer,
  has_key-insert_timer, IsSorted, All-insert_event, All-erase_event, IsSorted-insert_event,
  IsSorted-erase_event, due, due_none, due-le-length, due-insert_event,
}

-- An entry stands under its timer's time stamp, and a timer that repeats has an interval.
abbrev pub IsStamped : Entry → Type 0
IsStamped e = (e.stamp ≡ e.timer.time_stamp) × (e.timer.repeats ≡ ltb 0 e.timer.time_interval)

-- Every timer that can be removed has an entry, and the entries are sorted and stamped.
pub record IsValid (m : TimerManager) : Type 0 where
  pub covered : (i : ℕ) → has_key i m.timers ≡ true → has_id i m.events ≡ true
  pub sorted : IsSorted m.events
  pub stamped : All IsStamped m.events

pub empty-IsValid : IsValid empty
unfolding empty
empty-IsValid = record { covered = λ i h. cc; sorted = tt; stamped = tt }

-- Adding a timer to a valid manager leaves a valid one: every timer that can be removed has an
-- entry, and the entries are sorted and stamped with their timers' times.
pub add_timer-IsValid :
    (event : Option ℕ) (stamp interval : ℕ) (m : TimerManager)
    → IsValid m
    → IsValid (add_timer event stamp interval m).1
unfolding add_timer modify_timeout new
add_timer-IsValid event stamp interval m v =
    let id = add32 m.last_timer_id 1 in
    let timer = new event stamp interval in
    let e : Entry = record { stamp = stamp; id = id; timer = timer } in
    record {
      covered = λ i h. ground (
        arith,
        has_id-insert_event i e m.events,
        has_key-insert_timer i id timer m.timers,
        v.covered i,
      );
      sorted = IsSorted-insert_event e m.events v.sorted;
      stamped = All-insert_event IsStamped e m.events (refl, refl) v.stamped;
    }

-- Removing a timer from a valid manager leaves a valid one, whether or not the timer is known.
pub remove_timer-IsValid : (id : ℕ) (m : TimerManager) → IsValid m → IsValid (remove_timer id m)
unfolding remove_timer modify_timeout
remove_timer-IsValid id m v = elim (Option-cases (find_timer id m.timers)) [
  | inl e ↦ rw e (record { covered = v.covered; sorted = v.sorted; stamped = v.stamped })
  | inr (t, e) ↦ rw e (record {
    covered = λ i h. ground (
      arith,
      has_id-erase_event i t.time_stamp id m.events,
      has_key-erase_timer i id m.timers,
      v.covered i,
    );
    sorted = IsSorted-erase_event t.time_stamp id m.events v.sorted;
    stamped = All-erase_event IsStamped t.time_stamp id m.events v.stamped;
  })
]

again_fields :
    (now : ℕ) (e : Entry)
    → (IsStamped e → IsStamped (again now e))
      × ((again now e).id ≡ e.id)
      × ((again now e).stamp ≡ now + e.timer.time_interval)
unfolding again
again_fields now e = (λ s. (refl, s.1), refl, refl)

fire-IsValid :
    (now : ℕ) (e : Entry) (rest : List Entry) (m : TimerManager)
    → m.events ≡ e ∷ rest
    → IsValid m
    → IsValid (fire now e rest m)
unfolding fire
fire-IsValid now e rest m q v =
    let s : IsSorted (e ∷ rest) = subst IsSorted q v.sorted in
    let st : All IsStamped (e ∷ rest) = subst (All IsStamped) q v.stamped in
    let held : (i : ℕ) → has_key i m.timers ≡ true → has_id i (e ∷ rest) ≡ true =
      λ i h. subst (λ es. has_id i es ≡ true) q (v.covered i h) in
    elim (Bool-cases e.timer.repeats) [
      | inl b ↦ simp b (record {
        covered = λ i h.
            ground (arith, held i h, has_id-insert_event i (again now e) rest, again_fields now e);
        sorted = IsSorted-insert_event (again now e) rest s.1;
        stamped = All-insert_event IsStamped (again now e) rest ((again_fields now e).0 st.0) st.1;
      })
      | inr b ↦ rw b (record {
        covered = λ i h. ground (arith, held i, has_key-erase_timer i e.id m.timers);
        sorted = s.1;
        stamped = st.1;
      })
    ]

-- A round leaves one due entry fewer.
fire-due :
    (now : ℕ) (e : Entry) (rest : List Entry) (m : TimerManager)
    → m.events ≡ e ∷ rest
    → IsValid m
    → leb e.stamp now ≡ true
    → due now m.events ≡ suc (due now (fire now e rest m).events)
unfolding fire
fire-due now e rest m q v b =
    let st : All IsStamped (e ∷ rest) = subst (All IsStamped) q v.stamped in
    ground
      (arith, st.0, again_fields now e, due-insert_event now (again now e) rest, ap (due now) q)

abbrev Done : ℕ → TimerManager → Type 0
Done now m = IsValid m × ((m.timers ≡ []) ⊎ (due now m.events ≡ 0))

-- What a round leaves: the loop ends with nothing due or no timer left, or goes on with one due
-- entry fewer; it never reads an empty map.
abbrev Progress : ℕ → TimerManager → Round → Type 0
Progress now m over = (m.timers ≡ []) ⊎ (due now m.events ≡ 0)
Progress now m fault = ⊥
Progress now m (next m') = IsValid m' × (due now m.events ≡ suc (due now m'.events))

self_key : (k : ℕ) (b : Bool) → ((k == k) || b) ≡ true
self_key k b = ground arith

empty_uncovered : (k : ℕ) (es : List Entry) → es ≡ [] → ¬ (has_id k es ≡ true)
empty_uncovered k [] q h = cc
empty_uncovered k (e ∷ es) q h = cc

round_cases :
    (now : ℕ) (m : TimerManager) (ts : List (ℕ × Timer)) (es : List Entry)
    → m.timers ≡ ts
    → m.events ≡ es
    → IsValid m
    → Progress now m (round now m)
unfolding round
round_cases now m [] es p q v = simp (p, round) (inl refl)
round_cases now m ((k, t) ∷ ts) [] p q v =
    absurd (empty_uncovered k m.events q (v.covered k (simp p (self_key k (has_key k ts)))))
round_cases now m ((k, t) ∷ ts) (e ∷ rest) p q v = elim (Bool-cases (leb e.stamp now)) [
  | inl b ↦ simp (p, q, round, b) (fire-IsValid now e rest m q v, counted e rest q b)
  | inr b ↦ simp (p, q, round, b) (inr (late e rest q b))
]
  where
    late :
        (e : Entry) (rest : List Entry)
        → m.events ≡ e ∷ rest
        → leb e.stamp now ≡ false
        → due now rest ≡ 0
    late e rest q b = ground (arith, due_none now e rest (subst IsSorted q v.sorted))

    counted :
        (e : Entry) (rest : List Entry)
        → m.events ≡ e ∷ rest
        → leb e.stamp now ≡ true
        → suc (due now rest) ≡ suc (due now (fire now e rest m).events)
    counted e rest q b = ground (arith, fire-due now e rest m q v b, ap (due now) q)

fire_due-Done :
    (fuel now : ℕ) (m : TimerManager)
    → IsValid m
    → due now m.events < fuel
    → Returns (Done now) (fire_due fuel now m)
unfolding fire_due
fire_due-Done zero now m v h = absurd (omega arith)
fire_due-Done (suc fuel) now m v h =
    go (round now m) (round_cases now m m.timers m.events refl refl v)
      (λ m' v' k. fire_due-Done fuel now m' v' k)
  where
    go :
        (r : Round)
        → Progress now m r
        → ((m' : TimerManager)
            → IsValid m'
            → due now m'.events < fuel
            → Returns (Done now) (fire_due fuel now m'))
        → Returns
            (Done now)
            (elim r [ over ↦ some m | fault ↦ none | next m' ↦ fire_due fuel now m' ])
    go over d ih = (v, d)
    go fault d ih = d
    go (next m') (v', e) ih = ih m' v' (omega arith)

pub modify_timeout-IsValid : (m : TimerManager) → IsValid m → IsValid (modify_timeout m)
unfolding modify_timeout
modify_timeout-IsValid m v = record { covered = v.covered; sorted = v.sorted; stamped = v.stamped }

-- On a valid manager the handling of a timer event always ends, never reads the first entry of an
-- empty map, and leaves a valid manager in which no timer is left or no entry is due.
pub handle_timer_event-Done :
    (now : ℕ) (m : TimerManager)
    → IsValid m
    → Returns
        (λ m'. IsValid m' × ((m'.timers ≡ []) ⊎ (due now m'.events ≡ 0)))
        (handle_timer_event now m)
unfolding handle_timer_event modify_timeout
handle_timer_event-Done now m v =
    Returns->>= (Done now) (Done now) _ _
      (fire_due-Done (suc (length m.events)) now m v (omega (arith, due-le-length now m.events)))
      λ m' d. (modify_timeout-IsValid m' d.0, d.1)

-- The timer file is set to the first entry's time, exactly to the millisecond and with nanoseconds
-- in range, and disarmed where there is no entry; so it goes off when the earliest timer is due.
abbrev pub ArmedFor : Option Entry → ItimerSpec → Type 0
ArmedFor none a = (a.value_sec ≡ 0) × (a.value_nsec ≡ 0)
ArmedFor (some e) a =
    (a.value_sec * 1000000000 + a.value_nsec ≡ e.stamp * 1000000)
    × (a.value_nsec < 1000000000)
    × (a.interval_sec * 1000000000 + a.interval_nsec ≡ e.timer.time_interval * 1000000)
    × (a.interval_nsec < 1000000000)

-- Where the entries are stamped with their timers' times, the timer file is set to the first
-- entry's time and interval, exactly to the millisecond and with nanoseconds in range, and
-- disarmed where there is no entry.
pub modify_timeout-ArmedFor :
    (m : TimerManager) (es : List Entry)
    → m.events ≡ es
    → All IsStamped es
    → ArmedFor (head? es) (modify_timeout m).armed
unfolding modify_timeout timer_fd_set_time
modify_timeout-ArmedFor m [] q s = simp q (refl, refl)
modify_timeout-ArmedFor m (e ∷ es) q s =
    simp q (omega (arith, s.0.0), omega arith, omega arith, omega arith)

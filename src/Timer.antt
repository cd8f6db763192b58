-- ===== src/Timer.antt =====
-- include/net/timer.h and src/net/timer.cpp: the timers of the event loop.
-- Times are milliseconds of the monotonic clock, natural numbers. A callback is its number, and
-- `fired` is the trace of the calls; as those registered here (`RtpSink::TimeoutCallback`) do, a
-- callback leaves the timers alone.
pub mod Events
pub mod Invariant
pub mod Stale
mod Tests
use my_rtsp_server.Prelude.{
  ℕ, zero, suc, ◌+◌, ◌-◌, ◌*◌, ◌/◌, ◌%◌, ◌≤◌, ◌<◌, ◌≡◌, Bool, true, false, ◌&&◌, ◌||◌, Option, none,
  some, List, [], ◌∷◌, ◌++◌, leb, ltb, ◌==◌, if◌then◌else◌, ◌>>=◌, add32, length,
}

pub record Timer : Type 0 where
  pub timer_event : Option ℕ
  pub time_stamp : ℕ
  pub time_interval : ℕ
  pub repeats : Bool

unfoldable pub new : Option ℕ → ℕ → ℕ → Timer
new timer_event time_stamp time_interval = record {
  timer_event = timer_event;
  time_stamp = time_stamp;
  time_interval = time_interval;
  repeats = ltb 0 time_interval;
}

-- What `HandleEvent` calls.
pub handle_event : Timer → List ℕ
handle_event t = elim t.timer_event [ none ↦ [] | some e ↦ e ∷ [] ]

pub record ItimerSpec : Type 0 where
  pub value_sec : ℕ
  pub value_nsec : ℕ
  pub interval_sec : ℕ
  pub interval_nsec : ℕ

unfoldable pub timer_fd_set_time : ℕ → ℕ → ItimerSpec
timer_fd_set_time when period = record {
  value_sec = when / 1000;
  value_nsec = when % 1000 * 1000000;
  interval_sec = period / 1000;
  interval_nsec = period % 1000 * 1000000;
}

-- An entry of `m_events_map_`: its key is the pair of time stamp and id.
pub record Entry : Type 0 where
  pub stamp : ℕ
  pub id : ℕ
  pub timer : Timer

-- `m_timers_map_` is an association list, `m_events_map_` is sorted by key.
pub record TimerManager : Type 0 where
  pub timers : List (ℕ × Timer)
  pub events : List Entry
  pub last_timer_id : ℕ
  pub armed : ItimerSpec
  pub fired : List ℕ

abbrev pub before : Entry → Entry → Bool
before e d = ltb e.stamp d.stamp || ((e.stamp == d.stamp) && ltb e.id d.id)

-- A multimap's `insert`: behind the entries with the same key.
unfoldable pub insert_event : Entry → List Entry → List Entry
insert_event e [] = e ∷ []
insert_event e (d ∷ ds) = if before e d then e ∷ d ∷ ds else d ∷ insert_event e ds

-- `erase` by key.
unfoldable pub erase_event : ℕ → ℕ → List Entry → List Entry
erase_event stamp id [] = []
erase_event stamp id (d ∷ ds) =
    if (d.stamp == stamp) && (d.id == id)
    then erase_event stamp id ds
    else d ∷ erase_event stamp id ds

unfoldable pub find_timer : ℕ → List (ℕ × Timer) → Option Timer
find_timer id [] = none
find_timer id ((k, t) ∷ m) = if k == id then some t else find_timer id m

-- A map's `insert` leaves an entry that is there.
unfoldable pub insert_timer : ℕ → Timer → List (ℕ × Timer) → List (ℕ × Timer)
unfolding find_timer
insert_timer id t m = elim (find_timer id m) [ none ↦ (id, t) ∷ m | some _ ↦ m ]

unfoldable pub erase_timer : ℕ → List (ℕ × Timer) → List (ℕ × Timer)
erase_timer id [] = []
erase_timer id ((k, t) ∷ m) = if k == id then erase_timer id m else (k, t) ∷ erase_timer id m

unfoldable pub modify_timeout : TimerManager → TimerManager
unfolding timer_fd_set_time
modify_timeout m = record m {
  armed = elim m.events [
    | [] ↦ timer_fd_set_time 0 0
    | e ∷ es ↦ timer_fd_set_time e.timer.time_stamp e.timer.time_interval
  ];
}

unfoldable pub empty : TimerManager
unfolding timer_fd_set_time
empty = record {
  timers = [];
  events = [];
  last_timer_id = 0;
  armed = timer_fd_set_time 0 0;
  fired = [];
}

unfoldable pub add_timer : Option ℕ → ℕ → ℕ → TimerManager → ℕ × TimerManager
unfolding new insert_timer insert_event modify_timeout
add_timer event time_stamp time_interval m =
    let timer = new event time_stamp time_interval in
    let id = add32 m.last_timer_id 1 in
    (
      id,
      modify_timeout (record m {
        timers = insert_timer id timer m.timers;
        events = insert_event (record { stamp = time_stamp; id = id; timer = timer }) m.events;
        last_timer_id = id;
      }),
    )

-- `RemoveTimer` always returns true.
pub remove_timer : ℕ → TimerManager → TimerManager
unfolding find_timer erase_timer erase_event modify_timeout
remove_timer id m = modify_timeout (elim (find_timer id m.timers) [
  | none ↦ m
  | some t ↦ record m {
    timers = erase_timer id m.timers;
    events = erase_event t.time_stamp id m.events;
  }
])

-- The entry of a timer that goes on, at its next time.
again : ℕ → Entry → Entry
again now e = record {
  stamp = now + e.timer.time_interval;
  id = e.id;
  timer = record (e.timer) { time_stamp = now + e.timer.time_interval };
}

-- One round of the loop of `HandleTimerEvent`, on the first entry and the others.
fire : ℕ → Entry → List Entry → TimerManager → TimerManager
unfolding handle_event insert_event erase_timer
fire now e rest m =
    let called = m.fired ++ handle_event e.timer in
    if e.timer.repeats
    then record m { fired = called; events = insert_event (again now e) rest }
    else record m { fired = called; events = rest; timers = erase_timer e.id m.timers }

-- What a round of the loop comes to: its test fails, it reads the first entry of an empty map, or
-- it fires the first entry.
data Round : Type 0 where
  over : Round
  fault : Round
  next : TimerManager → Round

round : ℕ → TimerManager → Round
round now m = elim m.timers [
  | [] ↦ over
  | _ ∷ _ ↦ elim m.events [
    | [] ↦ fault
    | e ∷ rest ↦ if leb e.stamp now then next (fire now e rest m) else over
  ]
]

-- The loop. `none` is a fault, or that the fuel ran out.
fire_due : ℕ → ℕ → TimerManager → Option TimerManager
fire_due zero now m = none
fire_due (suc fuel) now m = elim (round now m) [
  | over ↦ some m
  | fault ↦ none
  | next m' ↦ fire_due fuel now m'
]

-- `HandleTimerEvent` at the time `now`; each round has one due entry fewer.
pub handle_timer_event : ℕ → TimerManager → Option TimerManager
handle_timer_event now m = do m' ← fire_due (suc (length m.events)) now m; some (modify_timeout m')

-- ===== src/Scheduler.antt =====
-- include/net/event_scheduler.h and src/net/event_scheduler.cpp, with `TriggerEvent` of
-- include/net/event.h: the loop of the program. A callback and its argument are numbers, `run` is
-- what a callback does; `ready` is what epoll reports, `now` the clock.
pub mod Callbacks
pub mod Construction
pub mod Startup
mod Tests
use my_rtsp_server.Prelude.{
  ℕ, zero, suc, ◌+◌, Bool, true, false, Option, none, some, List, [], ◌∷◌, ◌++◌, if◌then◌else◌,
  ◌>>=◌,
}
use my_rtsp_server.Timer
use my_rtsp_server.Timer.{TimerManager, add_timer, remove_timer}
use my_rtsp_server.Poller
use my_rtsp_server.Poller.{Poller, IoEvent, update_io_event, remove_io_event}

pub record TriggerEvent : Type 0 where
  pub arg : ℕ
  pub trigger_callback : Option ℕ

pub record EventScheduler : Type 0 where
  pub quit : Bool
  pub poller : Poller
  pub time_manager : TimerManager
  pub trigger_events : List TriggerEvent
  pub callback_que : List (ℕ × ℕ)

pub add_trigger_event : TriggerEvent → EventScheduler → EventScheduler
add_trigger_event event s = record s { trigger_events = s.trigger_events ++ (event ∷ []) }

-- The id of the timer, and the scheduler.
abbrev pub with_timer : ℕ × TimerManager → EventScheduler → ℕ × EventScheduler
with_timer (id, m) s = (id, record s { time_manager = m })

pub add_timer_event_run_after : ℕ → Option ℕ → ℕ → EventScheduler → ℕ × EventScheduler
add_timer_event_run_after now event delay s =
    with_timer (add_timer event (now + delay) 0 s.time_manager) s

pub add_timer_event_run_at : Option ℕ → ℕ → EventScheduler → ℕ × EventScheduler
add_timer_event_run_at event when s = with_timer (add_timer event when 0 s.time_manager) s

unfoldable pub add_timer_event_run_every : ℕ → Option ℕ → ℕ → EventScheduler → ℕ × EventScheduler
add_timer_event_run_every now event interval s =
    with_timer (add_timer event (now + interval) interval s.time_manager) s

unfoldable pub remove_timer_event : ℕ → EventScheduler → EventScheduler
remove_timer_event id s = record s { time_manager = remove_timer id s.time_manager }

-- `AddIOEvent` of the poller is its `UpdateIOEvent`.
pub add_io_event : ℕ → EventScheduler → EventScheduler
add_io_event p s = record s { poller = update_io_event p s.poller }

pub remove_event : ℕ → EventScheduler → Bool × EventScheduler
remove_event p s =
    let (done, poller) = remove_io_event p s.poller in (done, record s { poller = poller })

unfoldable pub run_in_local_thread : ℕ → ℕ → EventScheduler → EventScheduler
run_in_local_thread cb arg s = record s { callback_que = s.callback_que ++ ((cb, arg) ∷ []) }

-- A callback returns, or does not.
module _ (run : ℕ → ℕ → EventScheduler → Option EventScheduler) where
  unfoldable pub call : Option ℕ → ℕ → EventScheduler → Option EventScheduler
  call none arg s = some s
  call (some cb) arg s = run cb arg s

  -- `TriggerEvent::HandleEvent`.
  abbrev pub trigger : TriggerEvent → EventScheduler → Option EventScheduler
  trigger event s = call event.trigger_callback event.arg s

  unfoldable pub trigger_all : List TriggerEvent → EventScheduler → Option EventScheduler
  trigger_all [] s = some s
  trigger_all (event ∷ events) s = do s' ← trigger event s; trigger_all events s'

  unfoldable pub handle_triggle_events : EventScheduler → Option EventScheduler
  handle_triggle_events s = do
    s' ← trigger_all s.trigger_events s
    some (record s' { trigger_events = [] })

  -- `fuel` tests of the loop of HandleOtherEvent, the next one on the queue; `none`: a callback
  -- does not return, or the loop goes on.
  unfoldable pub other_rounds : ℕ → List (ℕ × ℕ) → EventScheduler → Option EventScheduler
  other_rounds zero que s = none
  other_rounds (suc fuel) [] s = some s
  other_rounds (suc fuel) ((cb, arg) ∷ que) s = do
    s' ← run cb arg s
    other_rounds fuel s'.callback_que s'

  abbrev pub handle_other_event : ℕ → EventScheduler → Option EventScheduler
  handle_other_event fuel s = other_rounds fuel s.callback_que s

  -- The poller's part of the loop.
  unfoldable pub poll :
      (ℕ → ℕ → Poller → Option Poller)
      → Option (List (ℕ × ℕ))
      → EventScheduler
      → Option EventScheduler
  poll run_io ready s = do
    poller ← Poller.handle_event run_io ready s.poller
    some (record s { poller = poller })

  -- `Loop` over what `epoll` reports round by round.
  unfoldable pub loop :
      (ℕ → ℕ → Poller → Option Poller)
      → ℕ
      → List (Option (List (ℕ × ℕ)))
      → EventScheduler
      → Option EventScheduler
  loop run_io fuel [] s = some s
  loop run_io fuel (ready ∷ later) s = if s.quit then some s else (do
    s1 ← handle_triggle_events s
    s2 ← poll run_io ready s1
    s3 ← handle_other_event fuel s2
    loop run_io fuel later s3)

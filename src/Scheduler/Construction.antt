-- ===== src/Scheduler/Construction.antt =====
-- How the loop is built and taken down: the constructors and destructors of
-- src/net/event_scheduler.cpp and src/net/timer.cpp, `WakeUp` and `HandleRead`.
use my_rtsp_server.Prelude.{ℕ, zero, suc, false, Option, none, some, []}
use my_rtsp_server.Timer
use my_rtsp_server.Timer.{TimerManager}
use my_rtsp_server.Poller
use my_rtsp_server.Poller.{
  IoEvent, Poller, enable, event_read, set_event, update_io_event, remove_io_event,
}
use my_rtsp_server.Scheduler.{EventScheduler}

-- The static functions that are read callbacks.
abbrev pub timer_callback : ℕ
timer_callback = 5

abbrev pub wake_callback : ℕ
wake_callback = 6

-- An event that waits for its descriptor to be readable; `this` is its argument.
unfoldable pub reading_event : ℕ → ℕ → ℕ → IoEvent
reading_event fd this cb =
    enable event_read (record (Poller.create_new fd this) { read_cb = some cb })

-- The event is put at `p` and added to the poller.
unfoldable pub add_reading : ℕ → ℕ → ℕ → ℕ → Poller → Poller
unfolding reading_event
add_reading fd this cb p s =
    update_io_event p (record s { io_events = set_event p (reading_event fd this cb) s.io_events })

-- `TimerManager::CreateNew`, by what `timerfd_create` gives; `none` is the null pointer.
unfoldable pub new_timers : Option ℕ → ℕ → ℕ → Poller → Option TimerManager × Poller
unfolding add_reading
new_timers none this p s = (none, s)
new_timers (some fd) this p s =
    (some (Timer.modify_timeout Timer.empty), add_reading fd this timer_callback p s)

-- What `EventScheduler::CreateNew` gives: the null pointer, a scheduler whose timer manager is
-- null, or a whole one.
pub data Created : Type 0 where
  no_event_fd : Created
  no_timers : Poller → Created
  created : EventScheduler → Created

abbrev with_timers : Option TimerManager → Poller → Created
with_timers none s = no_timers s
with_timers (some m) s =
    created (record {
      quit = false;
      poller = s;
      time_manager = m;
      trigger_events = [];
      callback_que = [];
    })

-- `this` and `timers` are the addresses of the scheduler and the timer manager, `wake` and `timer`
-- those of their events, and `io_events` the memory.
unfoldable pub create_new : Option ℕ → Option ℕ → ℕ → ℕ → ℕ → ℕ → (ℕ → IoEvent) → Created
unfolding new_timers add_reading
create_new none timer_fd this timers wake timer io_events = no_event_fd
create_new (some event_fd) timer_fd this timers wake timer io_events =
    let (m, s) = new_timers timer_fd timers timer (Poller.new io_events) in
    with_timers m (add_reading event_fd this wake_callback wake s)

-- The destructor's part for the poller, with that of the timer manager.
unfoldable pub destroy : ℕ → ℕ → Poller → Poller
destroy wake timer s = (remove_io_event timer (remove_io_event wake s).1).1

-- The eventfd is written and read eight bytes at a time; `read` is `none` where it has nothing.
unfoldable pub wake_up : {S : Type 0} → (S → S) → S → S
wake_up write_one s = write_one s

-- The loop of `HandleRead`, for `fuel` calls of `read`.
unfoldable pub handle_read : {S : Type 0} → (S → Option S) → ℕ → S → Option S
handle_read read zero s = none
handle_read read (suc fuel) s = elim (read s) [ none ↦ some s | some s' ↦ handle_read read fuel s' ]

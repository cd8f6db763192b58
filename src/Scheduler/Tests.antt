-- ===== src/Scheduler/Tests.antt =====
-- The theorems on the scheduler with callbacks that do nothing.
use my_rtsp_server.Prelude.{ℕ, ◌≡◌, refl, false, Option, none, some, [], ◌∷◌, arith}
use my_rtsp_server.Timer.{empty}
use my_rtsp_server.Poller.{Poller, create_new}
use my_rtsp_server.Poller.{epoll_in}
use my_rtsp_server.Poller.Tests.{interest, interest-IsEpoll}
use my_rtsp_server.Scheduler.Construction
use my_rtsp_server.Scheduler.Construction.{created}
use my_rtsp_server.Scheduler.Startup.{create_new_lem}
use my_rtsp_server.Scheduler.{EventScheduler, run_in_local_thread, loop}
use my_rtsp_server.Scheduler.Callbacks.{loop_stuck}

abbrev scheduler : EventScheduler
scheduler = record {
  quit = false;
  poller = record {
    event_map = [];
    event_lists_size = 16;
    ctls = [];
    io_events = λ p. create_new 0 0;
  };
  time_manager = empty;
  trigger_events = [];
  callback_que = [];
}

abbrev run : ℕ → ℕ → EventScheduler → Option EventScheduler
run cb arg s = some s

abbrev run_io : ℕ → ℕ → Poller → Option Poller
run_io cb arg s = some s

run-callback_que :
    (cb arg : ℕ) (s s' : EventScheduler) → run cb arg s ≡ some s' → s'.callback_que ≡ s.callback_que
run-callback_que cb arg s s' e = ground arith

loop_stuck_example :
    loop run run_io 100 (some [] ∷ some [] ∷ []) (run_in_local_thread 1 2 scheduler) ≡ none
loop_stuck_example =
    loop_stuck run run-callback_que run_io 100 (some []) (some [] ∷ []) 1 2 scheduler refl

create_new_lem_example :
    (s : EventScheduler) × (Construction.create_new
        (some 4)
        (some 5)
        100
        101
        200
        201
        (λ p. create_new 0 0)
      ≡ created s)
    × (interest s.poller.ctls 5 ≡ some epoll_in)
    × (interest (Construction.destroy 200 201 s.poller).ctls 5 ≡ none)
create_new_lem_example =
    create_new_lem interest-IsEpoll 4 5 100 101 200 201 5 (λ p. create_new 0 0) refl

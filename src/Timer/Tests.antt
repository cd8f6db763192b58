-- ===== src/Timer/Tests.antt =====
-- The theorems on the timers at a manager with a timer that repeats and one that does not.
use my_rtsp_server.Prelude.{◌+◌, ◌≡◌, refl, ◌⊎◌, true, false, none, some, [], ◌∷◌, arith, Returns}
use my_rtsp_server.Timer.{
  Timer, TimerManager, empty, add_timer, remove_timer, handle_timer_event, find_timer,
}
use my_rtsp_server.Timer.Events.{due}
use my_rtsp_server.Timer.Invariant.{IsValid, handle_timer_event-Done}
use my_rtsp_server.Timer.Stale.{has_entry, remove_repeated_timer}

abbrev every_40 : Timer
every_40 = record { timer_event = some 3; time_stamp = 100; time_interval = 40; repeats = true }

abbrev once : Timer
once = record { timer_event = some 4; time_stamp = 120; time_interval = 0; repeats = false }

abbrev both : TimerManager
both = record empty {
  timers = (1, every_40) ∷ (2, once) ∷ [];
  events =
      record { stamp = 100; id = 1; timer = every_40 }
      ∷ record { stamp = 120; id = 2; timer = once }
      ∷ [];
  last_timer_id = 2;
}

both-IsValid : IsValid both
both-IsValid = record {
  covered = λ i h. ground arith;
  sorted = ((omega arith, tt), (tt, tt));
  stamped = ((refl, refl), ((refl, refl), tt));
}

handle_timer_event-Done_example :
    Returns
      (λ m'. IsValid m' × ((m'.timers ≡ []) ⊎ (due 105 m'.events ≡ 0)))
      (handle_timer_event 105 both)
handle_timer_event-Done_example = handle_timer_event-Done 105 both both-IsValid

remove_repeated_timer_example :
    let (id, m) = add_timer (some 3) 100 40 empty in
    Returns
      (λ m'.
        (find_timer id (remove_timer id m').timers ≡ none)
        × (has_entry (105 + 40) id (remove_timer id m').events ≡ true))
      (handle_timer_event 105 m)
remove_repeated_timer_example =
    remove_repeated_timer (some 3) 40 100 105 (omega arith) (omega arith)

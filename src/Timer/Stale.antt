-- ===== src/Timer/Stale.antt =====
-- What `RemoveTimer` takes out of the sorted map, and what it leaves there.
use my_rtsp_server.Prelude.{
  ℕ, ◌+◌, ◌≤◌, ◌<◌, ◌≡◌, refl, Bool, true, false, ◌&&◌, ◌||◌, Option, none, some, List, [], ◌∷◌,
  arith, ◌==◌, if◌then◌else◌, Returns,
}
use my_rtsp_server.Timer.{
  Timer, Entry, TimerManager, new, insert_event, erase_event, find_timer, insert_timer, erase_timer,
  modify_timeout, empty, add_timer, remove_timer, again, fire, round, fire_due, handle_timer_event,
}

-- There is an entry of the timer `id` at the time `stamp`.
abbrev pub has_entry : ℕ → ℕ → List Entry → Bool
has_entry stamp id [] = false
has_entry stamp id (e ∷ es) = ((e.stamp == stamp) && (e.id == id)) || has_entry stamp id es

has_entry-erase_event :
    (s s' id : ℕ) (es : List Entry)
    → has_entry s id (erase_event s' id es) ≡ (if s == s' then false else has_entry s id es)
unfolding erase_event
has_entry-erase_event s s' id [] = ground arith
has_entry-erase_event s s' id (d ∷ ds) = ground (arith, has_entry-erase_event s s' id ds)

find_timer-erase_timer : (id : ℕ) (m : List (ℕ × Timer)) → find_timer id (erase_timer id m) ≡ none
unfolding find_timer erase_timer
find_timer-erase_timer id [] = refl
find_timer-erase_timer id ((k, t) ∷ m) = ground (arith, find_timer-erase_timer id m)

-- Removing a known timer forgets it, and takes out its entry at the time that it was added for; an
-- entry that it has at any other time stays.
pub remove_timer_entries :
    (id stamp : ℕ) (m : TimerManager) (t : Timer)
    → find_timer id m.timers ≡ some t
    → (find_timer id (remove_timer id m).timers ≡ none)
      × (has_entry stamp id (remove_timer id m).events
          ≡ (if stamp == t.time_stamp then false else has_entry stamp id m.events))
unfolding remove_timer modify_timeout
remove_timer_entries id stamp m t e =
    rw (e, remove_timer)
      (find_timer-erase_timer id m.timers, has_entry-erase_event stamp t.time_stamp id m.events)

-- A timer with an interval above 0 is added to the empty manager; when it is due it is handled
-- once, and then removed. It is no longer known, yet its next entry, for `interval` behind the
-- time of the handling, is still there.
pub remove_repeated_timer :
    (event : Option ℕ) (interval stamp now : ℕ)
    → 0 < interval
    → stamp ≤ now
    → let (id, m) = add_timer event stamp interval empty in
      Returns
        (λ m'.
          (find_timer id (remove_timer id m').timers ≡ none)
          × (has_entry (now + interval) id (remove_timer id m').events ≡ true))
        (handle_timer_event now m)
unfolding add_timer empty new remove_timer erase_timer erase_event insert_timer insert_event
    find_timer handle_timer_event fire_due round fire again modify_timeout
remove_repeated_timer event interval stamp now h k = ground arith

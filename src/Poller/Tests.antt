-- ===== src/Poller/Tests.antt =====
-- The theorems on the poller with an `epoll` that is a function, and one descriptor.
use my_rtsp_server.Prelude.{
  ℕ, ◌<◌, ◌≡◌, refl, true, false, Option, none, some, List, [], ◌∷◌, ◌==◌, if◌then◌else◌, length,
  ==_iff, arith,
}
use my_rtsp_server.Poller.{
  Ctl, ctl_add, ctl_mod, ctl_del, IoEvent, create_new, epoll_events, Poller, new, find_event,
  update_found, update_io_event, handle_event,
}
use my_rtsp_server.Poller.Flags.{Handles}
use my_rtsp_server.Poller.Interest.{IsEpoll, Reach, start, updated, is_some, Reach-interest}
use my_rtsp_server.Poller.Reported.{answer_all, handle_event-answer_all}

abbrev added : Option ℕ → ℕ → Option ℕ
added none mask = some mask
added (some old) mask = some old

abbrev modified : Option ℕ → ℕ → Option ℕ
modified none mask = none
modified (some old) mask = some mask

abbrev pub interest : List Ctl → ℕ → Option ℕ
interest [] fd = none
interest (ctl_add k mask ∷ cs) fd = let m = interest cs fd in if k == fd then added m mask else m
interest (ctl_mod k mask ∷ cs) fd = let m = interest cs fd in if k == fd then modified m mask else m
interest (ctl_del k ∷ cs) fd = let m = interest cs fd in if k == fd then none else m

refl_== : (k : ℕ) → (k == k) ≡ true
refl_== k = (==_iff k k).1 refl

pub interest-IsEpoll : IsEpoll interest
interest-IsEpoll = record {
  at_first = λ fd. refl;
  adds = λ cs fd mask e. rw (refl_== fd, e) refl;
  modifies = λ cs fd mask e. rw (refl_== fd, e) refl;
  deletes = λ cs fd. rw (refl_== fd) refl;
  add_other = λ cs fd mask k e. rw e refl;
  mod_other = λ cs fd mask k e. rw e refl;
  del_other = λ cs fd k e. rw e refl;
}

-- A listening socket.
abbrev listening : IoEvent
listening = record (create_new 5 0) { event = 1; read_cb = some 0 }

abbrev handles : Handles
handles = record { read = true; write = false; error = false }

abbrev empty : Poller
empty = record { event_map = []; event_lists_size = 16; ctls = []; io_events = λ p. listening }

abbrev one : Poller
one = record {
  event_map = (5, 0) ∷ [];
  event_lists_size = 16;
  ctls = ctl_add 5 1 ∷ [];
  io_events = λ p. listening;
}

one-Reach : Reach one
unfolding new update_io_event update_found find_event epoll_events
one-Reach = updated 0 (start (λ p. listening))

Reach-interest_example :
    (is_some (interest one.ctls 5) ≡ is_some (find_event 5 one.event_map))
    × (length one.event_map < one.event_lists_size)
Reach-interest_example = Reach-interest interest-IsEpoll 5 one-Reach

-- A callback that leaves the map alone.
abbrev run : ℕ → ℕ → Poller → Option Poller
run cb arg s = some s

-- A callback that is seen in the trace.
abbrev traced : ℕ → ℕ → Poller → Option Poller
traced cb arg s = some (record s { ctls = ctl_del cb ∷ s.ctls })

traced-revent :
    (cb arg p : ℕ) (s s' : Poller)
    → traced cb arg s ≡ some s'
    → (s'.io_events p).revent ≡ (s.io_events p).revent
traced-revent cb arg p s s' h = ground arith

handle_event-answer_all_example :
    handle_event traced (some ((5, 1) ∷ [])) one ≡ answer_all traced ((5, 1) ∷ []) one
handle_event-answer_all_example = handle_event-answer_all traced traced-revent ((5, 1) ∷ []) one

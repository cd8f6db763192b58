-- ===== src/Scheduler/Startup.antt =====
-- What epoll waits for while the loop stands, and behind its end.
use my_rtsp_server.Prelude.{
  ℕ, suc, ◌≡◌, ◌≢◌, refl, ap, ◌∙◌, Bool, true, false, ◌||◌, inl, inr, Option, none, some, List, [],
  ◌==◌, ==_iff, if◌then◌else◌, Bool-cases, arith,
}
use my_rtsp_server.Timer
use my_rtsp_server.Poller.{
  Ctl, IoEvent, Poller, epoll_in, epoll_events, enable, find_event, set_event, update_io_event,
  remove_io_event, remove_found,
}
use my_rtsp_server.Poller
use my_rtsp_server.Poller.Interest.{
  IsEpoll, Reach, start, updated, removed, written, update_io_event-io_events,
  remove_io_event-io_events,
}
use my_rtsp_server.Poller.Adding.{
  write_at, write_at-here, update-write_at-interest, remove_io_event-at,
}
use my_rtsp_server.Scheduler.{EventScheduler}
use my_rtsp_server.Scheduler.Construction.{
  created, reading_event, add_reading, new_timers, create_new, destroy, handle_read, timer_callback,
  wake_callback,
}

pub either :
    (a b : Bool)
    → ◌≡◌ {A = Option ℕ}
        (if a then some epoll_in else if b then some epoll_in else none)
        (if a || b then some epoll_in else none)
either true b = refl
either false b = refl

neither :
    (a b : Bool)
    → ◌≡◌ {A = Option ℕ}
        (if b then none else if a then none else if a || b then some epoll_in else none)
        none
neither true true = refl
neither true false = refl
neither false true = refl
neither false false = refl

add_reading-Reach : (fd this cb p : ℕ) (s : Poller) → Reach s → Reach (add_reading fd this cb p s)
unfolding add_reading
add_reading-Reach fd this cb p s r = updated p (written _ r)

add_reading-here :
    (fd this cb p : ℕ) (s : Poller) → ((add_reading fd this cb p s).io_events p).fd ≡ fd
unfolding add_reading reading_event enable
add_reading-here fd this cb p s =
    let s' = write_at p (reading_event fd this cb) s in
    ap (λ m. (m p).fd) (update_io_event-io_events p s')
    ∙ ap (λ (e : IoEvent). e.fd) (write_at-here p (reading_event fd this cb) s)

add_reading-other :
    (fd this cb p q : ℕ) (s : Poller)
    → (p == q) ≡ false
    → ((add_reading fd this cb p s).io_events q).fd ≡ (s.io_events q).fd
unfolding add_reading
add_reading-other fd this cb p q s h =
    ap (λ m. (m q).fd) (update_io_event-io_events p (write_at p (reading_event fd this cb) s))
    ∙ rw h refl

-- The poller with the two events, and the scheduler that it belongs to.
abbrev pub standing : ℕ → ℕ → ℕ → ℕ → ℕ → ℕ → (ℕ → IoEvent) → Poller
standing event_fd timer_fd this timers wake timer io_events =
    add_reading event_fd this wake_callback wake
      (add_reading timer_fd timers timer_callback timer (Poller.new io_events))

abbrev pub scheduler_with : Poller → EventScheduler
scheduler_with s = record {
  quit = false;
  poller = s;
  time_manager = Timer.modify_timeout Timer.empty;
  trigger_events = [];
  callback_que = [];
}

pub create_new-created :
    (event_fd timer_fd this timers wake timer : ℕ) (io_events : ℕ → IoEvent)
    → create_new (some event_fd) (some timer_fd) this timers wake timer io_events
      ≡ created (scheduler_with (standing event_fd timer_fd this timers wake timer io_events))
unfolding create_new new_timers
create_new-created event_fd timer_fd this timers wake timer io_events = refl

pub standing-Reach :
    (event_fd timer_fd this timers wake timer : ℕ) (io_events : ℕ → IoEvent)
    → Reach (standing event_fd timer_fd this timers wake timer io_events)
standing-Reach event_fd timer_fd this timers wake timer io_events =
    let s1 = add_reading timer_fd timers timer_callback timer (Poller.new io_events) in
    add_reading-Reach event_fd this wake_callback wake s1 (
      add_reading-Reach timer_fd timers timer_callback timer (Poller.new io_events)
        (start io_events))

module _ {interest : List Ctl → ℕ → Option ℕ} (epoll : IsEpoll interest) where
  add_reading-interest :
      (fd this cb p k : ℕ) (s : Poller)
      → Reach s
      → interest (add_reading fd this cb p s).ctls k
        ≡ (if fd == k then some epoll_in else interest s.ctls k)
  unfolding add_reading reading_event enable epoll_events
  add_reading-interest fd this cb p k s r =
      update-write_at-interest epoll p k (reading_event fd this cb) s r

  -- epoll waits for the two descriptors.
  pub standing-interest :
      (event_fd timer_fd this timers wake timer k : ℕ) (io_events : ℕ → IoEvent)
      → interest (standing event_fd timer_fd this timers wake timer io_events).ctls k
        ≡ (if (event_fd == k) || (timer_fd == k) then some epoll_in else none)
  unfolding Poller.new
  standing-interest event_fd timer_fd this timers wake timer k io_events =
      let s0 = Poller.new io_events in
      let s1 = add_reading timer_fd timers timer_callback timer s0 in
      let r0 : Reach s0 = start io_events in
      let r1 = add_reading-Reach timer_fd timers timer_callback timer s0 r0 in
      add_reading-interest event_fd this wake_callback wake k s1 r1
      ∙ ap (λ o. if event_fd == k then some epoll_in else o)
          (add_reading-interest timer_fd timers timer_callback timer k s0 r0
            ∙ ap (λ o. if timer_fd == k then some epoll_in else o) (epoll.at_first k))
      ∙ either (event_fd == k) (timer_fd == k)

  -- Where the eventfd and the timer could be made, there is a scheduler; epoll then waits for
  -- these two descriptors to be readable and for no other, and when it is destroyed, for none. The
  -- conditions: the two events are at different pointers, and `epoll_ctl` does what it documents.
  pub create_new_lem :
      (event_fd timer_fd this timers wake timer k : ℕ) (io_events : ℕ → IoEvent)
      → (wake == timer) ≡ false
      → (s : EventScheduler) × (create_new
            (some event_fd)
            (some timer_fd)
            this
            timers
            wake
            timer
            io_events
          ≡ created s)
        × (interest s.poller.ctls k
            ≡ (if (event_fd == k) || (timer_fd == k) then some epoll_in else none))
        × (interest (destroy wake timer s.poller).ctls k ≡ none)
  unfolding destroy
  create_new_lem event_fd timer_fd this timers wake timer k io_events apart =
      let s1 = add_reading timer_fd timers timer_callback timer (Poller.new io_events) in
      let s2 = standing event_fd timer_fd this timers wake timer io_events in
      let s3 = (remove_io_event wake s2).1 in
      let r2 = standing-Reach event_fd timer_fd this timers wake timer io_events in
      let own : (s2.io_events wake).fd ≡ event_fd =
        add_reading-here event_fd this wake_callback wake s1 in
      let own' : (s3.io_events timer).fd ≡ timer_fd =
        ap (λ m. (m timer).fd) (remove_io_event-io_events wake s2)
        ∙ add_reading-other event_fd this wake_callback wake timer s1 apart
        ∙ add_reading-here timer_fd timers timer_callback timer (Poller.new io_events) in
      let both = standing-interest event_fd timer_fd this timers wake timer k io_events in
      (
        scheduler_with s2,
        create_new-created event_fd timer_fd this timers wake timer io_events,
        both,
        remove_io_event-at epoll timer k timer_fd s3 (removed wake r2) own'
            ∙ ap (λ o. if timer_fd == k then none else o)
                (remove_io_event-at epoll wake k event_fd s2 r2 own
                  ∙ ap (λ o. if event_fd == k then none else o) both)
            ∙ neither (event_fd == k) (timer_fd == k),
      )

handle_read-read :
    {S : Type 0} (read : S → Option S) (fuel : ℕ) (s : S) (o : Option S)
    → read s ≡ o
    → handle_read read (suc fuel) s
      ≡ (elim o [ none ↦ some s | some s' ↦ handle_read read fuel s' ])
unfolding handle_read
handle_read-read {S} read fuel s o e =
    let go : Option S → Option S =
      λ x. elim x [ none ↦ some s | some s' ↦ handle_read read fuel s' ] in
    ap go e

-- However often the loop was woken up, `HandleRead` empties the eventfd with two calls of `read`.
-- The condition: a `read` fails at a count of 0, and else sets the count to 0.
pub handle_read-empties :
    {S : Type 0} (read : S → Option S) (count : S → ℕ) (s : S)
    → ((t : S) → count t ≡ 0 → read t ≡ none)
    → ((t : S) → count t ≢ 0 → (t' : S) × (read t ≡ some t') × (count t' ≡ 0))
    → (s' : S) × (handle_read read 2 s ≡ some s') × (count s' ≡ 0)
handle_read-empties read count s blocks takes = elim (Bool-cases (count s == 0)) [
  | inl e ↦
      let zeroed = (==_iff (count s) 0).0 e in
      (s, handle_read-read read 1 s none (blocks s zeroed), zeroed)
  | inr e ↦
      let (s', taken, zeroed) = takes s (ground arith) in
      (
        s',
        handle_read-read read 1 s (some s') taken
            ∙ handle_read-read read 0 s' none (blocks s' zeroed),
        zeroed,
      )
]

-- ===== src/Poller/Reported.antt =====
-- Which callbacks a round of the poller calls, by what epoll reported.
use my_rtsp_server.Prelude.{
  ℕ, ◌≡◌, refl, ap, ◌∙◌, Bool, true, false, ◌||◌, Option, none, some, List, [], ◌∷◌, if◌then◌else◌,
  ◌>>=◌, arith,
}
use Prim.Native.Nat.{bit_or}
use my_rtsp_server.Poller.{
  IoEvent, Poller, find_event, set_event, call, has, handle_io_event, ret_event, handle_found,
  handle_all, handle_event, event_read, event_write, event_error, epoll_in, epoll_pri, epoll_rdhup,
  epoll_out, epoll_err,
}
use my_rtsp_server.Poller.Adding.{write_at-here}

bind-equal :
    {A B : Type 0} (o : Option A) (f g : A → Option B)
    → ((a : A) → o ≡ some a → f a ≡ g a)
    → (o >>= f) ≡ (o >>= g)
bind-equal none f g h = refl
bind-equal (some a) f g h = h a refl

-- The flags of an event say what its three parts say.
abbrev flags : Bool → Bool → Bool → ℕ
flags a b c =
    bit_or (bit_or (if a then event_read else 0) (if b then event_write else 0))
      (if c then event_error else 0)

has-flags :
    (a b c : Bool)
    → (has event_read (flags a b c) ≡ a)
      × (has event_write (flags a b c) ≡ b)
      × (has event_error (flags a b c) ≡ c)
has-flags true true true = (refl, refl, refl)
has-flags true true false = (refl, refl, refl)
has-flags true false true = (refl, refl, refl)
has-flags true false false = (refl, refl, refl)
has-flags false true true = (refl, refl, refl)
has-flags false true false = (refl, refl, refl)
has-flags false false true = (refl, refl, refl)
has-flags false false false = (refl, refl, refl)

abbrev pub readable : ℕ → Bool
readable event = has epoll_in event || has epoll_pri event || has epoll_rdhup event

module _ (run : ℕ → ℕ → Poller → Option Poller) where
  abbrev pub call_if : Bool → Option ℕ → ℕ → Poller → Option Poller
  call_if b none arg s = some s
  call_if b (some cb) arg s = if b then run cb arg s else some s

  -- The callbacks of the event at `p`: for reading, for writing and for an error, each if epoll
  -- reported it.
  abbrev pub answered : ℕ → ℕ → Poller → Option Poller
  answered p event s = do
    s1 ← call_if (readable event) (s.io_events p).read_cb (s.io_events p).arg s
    s2 ← call_if (has epoll_out event) (s1.io_events p).write_cb (s1.io_events p).arg s1
    call_if (has epoll_err event) (s2.io_events p).error_cb (s2.io_events p).arg s2

  abbrev pub reported : ℕ → ℕ → Poller → Poller
  reported p event s = record s {
    io_events = set_event p (record (s.io_events p) { revent = ret_event run event }) s.io_events;
  }

  unfoldable pub answer_all : List (ℕ × ℕ) → Poller → Option Poller
  answer_all [] s = some s
  answer_all ((fd, event) ∷ ready) s = do
    p ← find_event fd s.event_map
    s' ← answered p event (reported p event s)
    answer_all ready s'

  call-call_if :
      (cb : Option ℕ) (flag : ℕ) (b : Bool) (e : IoEvent) (s : Poller)
      → has flag e.revent ≡ b
      → call run cb flag e s ≡ call_if b cb e.arg s
  unfolding call
  call-call_if none flag b e s h = refl
  call-call_if (some cb) flag b e s h = ap (λ x. if x then run cb e.arg s else some s) h

  module _
      (keeps : (cb arg p : ℕ) (s s' : Poller)
        → run cb arg s ≡ some s'
        → (s'.io_events p).revent ≡ (s.io_events p).revent) where
    call_if-revent :
        (b : Bool) (cb : Option ℕ) (arg p : ℕ) (s s' : Poller)
        → call_if b cb arg s ≡ some s'
        → (s'.io_events p).revent ≡ (s.io_events p).revent
    call_if-revent b none arg p s s' h = ground arith
    call_if-revent true (some cb) arg p s s' h = keeps cb arg p s s' h
    call_if-revent false (some cb) arg p s s' h = ground arith

    handle_io_event-answered :
        (p event : ℕ) (s : Poller)
        → (s.io_events p).revent ≡ ret_event run event
        → handle_io_event run p s ≡ answered p event s
    unfolding handle_io_event
    handle_io_event-answered p event s h =
        let (reads, writes, fails) =
          has-flags (readable event) (has epoll_out event) (has epoll_err event) in
        let e = s.io_events p in
        ap
          (λ o. do
            s1 ← o
            s2 ← call run (s1.io_events p).write_cb event_write (s1.io_events p) s1
            call run (s2.io_events p).error_cb event_error (s2.io_events p) s2)
          (call-call_if e.read_cb event_read (readable event) e s (ap (has event_read) h ∙ reads))
        ∙ bind-equal (call_if (readable event) e.read_cb e.arg s) _ _ (λ s1 k.
          let e1 = s1.io_events p in
          let h1 = call_if-revent (readable event) e.read_cb e.arg p s s1 k ∙ h in
          ap (λ o. do s2 ← o; call run (s2.io_events p).error_cb event_error (s2.io_events p) s2)
            (call-call_if e1.write_cb event_write (has epoll_out event) e1 s1
              (ap (has event_write) h1 ∙ writes))
          ∙ bind-equal (call_if (has epoll_out event) e1.write_cb e1.arg s1) _ _ (λ s2 k2.
            let e2 = s2.io_events p in
            let h2 = call_if-revent (has epoll_out event) e1.write_cb e1.arg p s1 s2 k2 ∙ h1 in
            call-call_if e2.error_cb event_error (has epoll_err event) e2 s2
              (ap (has event_error) h2 ∙ fails)))

    handle_found-answered :
        (found : Option ℕ) (event : ℕ) (s : Poller) (f g : Poller → Option Poller)
        → ((s' : Poller) → f s' ≡ g s')
        → (handle_found run found event s >>= f)
          ≡ (do p ← found; s' ← answered p event (reported p event s); g s')
    unfolding handle_found
    handle_found-answered none event s f g same = refl
    handle_found-answered (some p) event s f g same =
        let e = record (s.io_events p) { revent = ret_event run event } in
        ap (λ o. o >>= f)
          (handle_io_event-answered p event (reported p event s)
            (ap (λ d. d.revent) (write_at-here p e s)))
        ∙ bind-equal (answered p event (reported p event s)) f g (λ s' k. same s')

    handle_all-answer_all :
        (ready : List (ℕ × ℕ)) (s : Poller) → handle_all run ready s ≡ answer_all ready s
    unfolding handle_all handle_found answer_all
    handle_all-answer_all [] s = refl
    handle_all-answer_all ((fd, event) ∷ ready) s =
        handle_found-answered (find_event fd s.event_map) event s (handle_all run ready)
          (answer_all ready) (handle_all-answer_all ready)

    -- A round of the poller does what epoll's masks say: for each event that `epoll_wait` stored,
    -- in their order, the callback for reading is called if the mask has EPOLLIN, EPOLLPRI or
    -- EPOLLRDHUP, then that for writing if it has EPOLLOUT, then that for an error if it has
    -- EPOLLERR, each with the event's argument and where one is set; and the round fails where the
    -- map does not have the descriptor, or a callback fails. The condition: no callback changes
    -- the flags that were reported to an event.
    pub handle_event-answer_all :
        (ready : List (ℕ × ℕ)) (s : Poller) → handle_event run (some ready) s ≡ answer_all ready s
    unfolding handle_event
    handle_event-answer_all ready s = handle_all-answer_all ready s

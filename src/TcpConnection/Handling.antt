-- ===== src/TcpConnection/Handling.antt =====
-- The flags of a connection's event are what epoll waits for at its socket.
use my_rtsp_server.Prelude.{
  ℕ, ◌≡◌, refl, sym, ap, subst, ◌∙◌, false, inl, inr, Option, some, List, ◌==◌, ==_iff, Bool-cases,
}
use my_rtsp_server.Poller.{
  Ctl, IoEvent, enable, disable, has, Poller, epoll_events, update_io_event, remove_io_event,
}
use my_rtsp_server.Poller.Flags.{Flag, bit}
use my_rtsp_server.Poller.Interest.{
  IsEpoll, Reach, updated, removed, written, update_io_event-interest, update_io_event-other,
  remove_io_event-other, update_io_event-io_events, remove_io_event-io_events,
}
use my_rtsp_server.TcpConnection.{
  connect, enable_handling, disable_handling, write_event, tcp_conn_io_event,
}

-- The states of the poller while the connection of `sockfd` exists, whose event is at `p`: the
-- other events of the program have other descriptors.
pub data Connected (sockfd p : ℕ) : Poller → Type 0 where
  connected : {s : Poller} (this : ℕ) → Reach s → Connected sockfd p (connect sockfd this p s)
  enabled :
      {s : Poller} (f : Flag)
      → Connected sockfd p s
      → Connected sockfd p (enable_handling (bit f) p s)
  disabled :
      {s : Poller} (f : Flag)
      → Connected sockfd p s
      → Connected sockfd p (disable_handling (bit f) p s)
  other_updated :
      {s : Poller} (q : ℕ)
      → Connected sockfd p s
      → ((s.io_events q).fd == sockfd) ≡ false
      → Connected sockfd p (update_io_event q s)
  other_removed :
      {s : Poller} (q : ℕ)
      → Connected sockfd p s
      → ((s.io_events q).fd == sockfd) ≡ false
      → Connected sockfd p (remove_io_event q s).1
  other_written :
      {s : Poller} (io_events : ℕ → IoEvent)
      → Connected sockfd p s
      → (io_events p).fd ≡ (s.io_events p).fd
      → (io_events p).event ≡ (s.io_events p).event
      → Connected sockfd p (record s { io_events = io_events })

module _ {interest : List Ctl → ℕ → Option ℕ} (epoll : IsEpoll interest) where
  -- What holds in these states.
  record IsHandled (sockfd p : ℕ) (s : Poller) : Type 0 where
    reach : Reach s
    own_fd : (s.io_events p).fd ≡ sockfd
    told : interest s.ctls sockfd ≡ some (epoll_events (s.io_events p))

  updated-IsHandled :
      (sockfd p : ℕ) (e : IoEvent) (s : Poller)
      → Reach s
      → e.fd ≡ sockfd
      → IsHandled sockfd p (update_io_event p (write_event p e s))
  updated-IsHandled sockfd p e s r h =
      let s' = write_event p e s in
      let here : s'.io_events p ≡ e = rw ((==_iff p p).1 refl) refl in
      let kept = update_io_event-io_events p s' in
      let own : (s'.io_events p).fd ≡ sockfd = ap (λ (e : IoEvent). e.fd) here ∙ h in
      record {
        reach = updated p (written s'.io_events r);
        own_fd = ap (λ m. (m p).fd) kept ∙ own;
        told =
            subst
              (λ k.
                interest (update_io_event p s').ctls k
                ≡ some (epoll_events ((update_io_event p s').io_events p)))
              own
              (update_io_event-interest epoll p (written s'.io_events r)
                ∙ ap (λ m. some (epoll_events (m p))) (sym kept));
      }

  Connected-IsHandled : {sockfd p : ℕ} {s : Poller} → Connected sockfd p s → IsHandled sockfd p s
  unfolding connect enable_handling disable_handling tcp_conn_io_event enable disable epoll_events
  Connected-IsHandled {sockfd} {p} (connected {s = s} this r) =
      updated-IsHandled sockfd p (tcp_conn_io_event sockfd this) s r refl
  Connected-IsHandled {sockfd} {p} (enabled {s = s} f c) =
      let v = Connected-IsHandled c in
      elim (Bool-cases (has (bit f) (s.io_events p).event)) [
        | inl on ↦ rw on v
        | inr off ↦
            rw off (updated-IsHandled sockfd p (enable (bit f) (s.io_events p)) s v.reach v.own_fd)
      ]
  Connected-IsHandled {sockfd} {p} (disabled {s = s} f c) =
      let v = Connected-IsHandled c in
      elim (Bool-cases (has (bit f) (s.io_events p).event)) [
        | inl on ↦
            rw on (updated-IsHandled sockfd p (disable (bit f) (s.io_events p)) s v.reach v.own_fd)
        | inr off ↦ rw off v
      ]
  Connected-IsHandled {sockfd} {p} (other_updated {s = s} q c n) =
      let v = Connected-IsHandled c in
      let kept = update_io_event-io_events q s in
      record {
        reach = updated q v.reach;
        own_fd = ap (λ m. (m p).fd) kept ∙ v.own_fd;
        told =
            update_io_event-other epoll q sockfd s n
            ∙ v.told
            ∙ ap (λ m. some (epoll_events (m p))) (sym kept);
      }
  Connected-IsHandled {sockfd} {p} (other_removed {s = s} q c n) =
      let v = Connected-IsHandled c in
      let kept = remove_io_event-io_events q s in
      record {
        reach = removed q v.reach;
        own_fd = ap (λ m. (m p).fd) kept ∙ v.own_fd;
        told =
            remove_io_event-other epoll q sockfd s n
            ∙ v.told
            ∙ ap (λ m. some (epoll_events (m p))) (sym kept);
      }
  Connected-IsHandled {sockfd} {p} (other_written {s = s} io_events c same_fd same_event) =
      let v = Connected-IsHandled c in
      record {
        reach = written io_events v.reach;
        own_fd = same_fd ∙ v.own_fd;
        told = rw same_event v.told;
      }

  -- As long as a connection exists, whatever handlings it has enabled or disabled, and whatever
  -- the program has done with the events of other descriptors, `epoll` waits at its socket for
  -- exactly the flags that its event has. The condition is that `epoll_ctl` does what it
  -- documents.
  pub Connected-interest :
      {sockfd p : ℕ} {s : Poller}
      → Connected sockfd p s
      → interest s.ctls sockfd ≡ some (epoll_events (s.io_events p))
  Connected-interest c = (Connected-IsHandled c).told

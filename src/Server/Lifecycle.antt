-- ===== src/Server/Lifecycle.antt =====
-- A connection that comes and goes.
use my_rtsp_server.Prelude.{
  ℕ, ◌≡◌, refl, sym, ap, ◌∙◌, Bool, true, false, Option, none, some, List, [], ◌∷◌, ◌==◌,
  if◌then◌else◌, ==_iff, Returns, Bool-cases, inl, inr,
}
use my_rtsp_server.Poller.{Ctl, Poller, epoll_in, epoll_events, enable, update_io_event}
use my_rtsp_server.Poller.Interest.{IsEpoll, Reach, updated, written, update_io_event-io_events}
use my_rtsp_server.Poller.Adding.{
  write_at, write_at-here, update-write_at-interest, remove_io_event-at,
}
use my_rtsp_server.Sockets.System.{Call, Kernel}
use my_rtsp_server.TcpConnection.{connect, disconnect, tcp_conn_io_event}
use my_rtsp_server.Rtsp.{RtspConnection}
use my_rtsp_server.Rtsp.Creation.{Unset, new_connection, get_peer_id}
use my_rtsp_server.Rtsp.Creation
use my_rtsp_server.Rtsp.Response.{delete_connection}
use my_rtsp_server.Server.{
  Connections, find_connection, insert_connection, erase_connection, handle_new_connection,
  handle_disconnection, delete_all, handle_disconnection_list, handle_events, handle_triggle_events,
}
use my_rtsp_server.Server.Disconnection.{find-erase_connection}
use my_rtsp_server.Server.Accepting.{Serving, accept_connection, find-insert_connection}

-- The connection is gone, and no other.
find-erase-insert :
    (fd k : ℕ) (c : RtspConnection) (m : Connections)
    → find_connection fd m ≡ none
    → find_connection k (erase_connection fd (insert_connection fd c m)) ≡ find_connection k m
find-erase-insert fd k c m free =
    find-erase_connection k fd (insert_connection fd c m) ∙ (elim (Bool-cases (fd == k)) [
      | inl same ↦ rw same (sym free ∙ ap (λ j. find_connection j m) ((==_iff fd k).0 same))
      | inr other ↦ rw other (find-insert_connection fd k c m free ∙ rw other refl)
    ])

none_twice :
    (b : Bool) (o : Option ℕ)
    → ◌≡◌ {A = Option ℕ}
        (if b then none else if b then some epoll_in else o)
        (if b then none else o)
none_twice true o = refl
none_twice false o = refl

module _ {interest : List Ctl → ℕ → Option ℕ} (epoll : IsEpoll interest) where
  -- The connection of `fd` is taken from the poller with its event.
  connect-disconnect :
      (fd this p k : ℕ) (s : Poller)
      → Reach s
      → interest (disconnect p (connect fd this p s)).ctls k
        ≡ (if fd == k then none else interest s.ctls k)
  unfolding connect disconnect tcp_conn_io_event enable epoll_events
  connect-disconnect fd this p k s r =
      let e = tcp_conn_io_event fd this in
      let s1 = write_at p e s in
      let own : ((update_io_event p s1).io_events p).fd ≡ fd =
        ap (λ m. (m p).fd) (update_io_event-io_events p s1)
        ∙ ap (λ d. d.fd) (write_at-here p e s) in
      remove_io_event-at epoll p k fd (update_io_event p s1) (updated p (written s1.io_events r))
        own
      ∙ ap (λ o. if fd == k then none else o) (update-write_at-interest epoll p k e s r)
      ∙ none_twice (fd == k) (interest s.ctls k)

  -- A connection that is accepted, lost, and deleted when the loop handles the trigger event:
  -- every descriptor has the connection that it had before, no descriptor is listed, no trigger
  -- event is left, the sessions and instances are as they were, the connection's socket has been
  -- closed once, and epoll does not wait for it any more and waits for every other descriptor as
  -- before. The conditions: the descriptor had no connection, no other connection was about to be
  -- deleted, the poller's state is one that the program reaches, and `epoll_ctl` does what it
  -- documents.
  pub handle_triggle_events-accept_connection :
      (os : Kernel) (unset : Unset) (random this p cb fd k : ℕ) (s : Serving) (t : List Call)
      → Reach s.server.poller
      → find_connection fd s.server.connections ≡ none
      → s.server.disconnected_list ≡ []
      → s.server.trigger_events ≡ 0
      → Returns
          (λ s'.
            (find_connection k s'.connections ≡ find_connection k s.server.connections)
            × (s'.disconnected_list ≡ [])
            × (s'.trigger_events ≡ 0)
            × (s'.world ≡ record (s.server.world) { closed = fd ∷ s.server.world.closed })
            × (interest s'.poller.ctls k
                ≡ (if fd == k then none else interest s.server.poller.ctls k)))
          (handle_triggle_events
            (handle_disconnection fd (accept_connection os unset random this p cb fd s t).0.server))
  unfolding handle_triggle_events handle_disconnection handle_new_connection handle_events
      handle_disconnection_list delete_all delete_connection accept_connection Creation.create_new
  handle_triggle_events-accept_connection os unset random this p cb fd k s t r free none_listed
        no_event =
      let conn = new_connection unset fd (get_peer_id os fd t).0 random p in
      let m = insert_connection fd conn s.server.connections in
      let found : find_connection fd m ≡ some conn =
        find-insert_connection fd fd conn s.server.connections free
        ∙ rw ((==_iff fd fd).1 refl) refl in
      simp (none_listed, no_event, found)
        (
          find-erase-insert fd k conn s.server.connections free,
          refl,
          refl,
          refl,
          connect-disconnect fd this p k s.server.poller r,
        )

-- ===== src/Server/Accepting.antt =====
-- The server with its acceptor and the poller: its constructor, `Start`, and a connection that is
-- accepted (src/net/rtsp_server.cpp).
use my_rtsp_server.Prelude.{
  ℕ, ◌≡◌, sym, ap, ◌∙◌, false, Option, none, some, List, [], ◌∷◌, ◌==◌, if◌then◌else◌, subst,
}
use my_rtsp_server.Rtp.Instance.{Ipv4Address}
use my_rtsp_server.Poller.{Ctl, Poller, epoll_in, epoll_events, enable}
use my_rtsp_server.Poller.Interest.{IsEpoll, Reach}
use my_rtsp_server.Poller.Adding.{update-write_at-interest}
use my_rtsp_server.TcpConnection.{connect, tcp_conn_io_event}
use my_rtsp_server.Sockets.System.{SockAddr, Call, Kernel, Sys, negative, pure, ◌>>=◌}
use my_rtsp_server.Sockets
use my_rtsp_server.Acceptor
use my_rtsp_server.Acceptor.{Acceptor}
use my_rtsp_server.Rtsp.{RtspConnection}
use my_rtsp_server.Rtsp.World.{World}
use my_rtsp_server.Rtsp.Creation.{Unset, new_connection, get_peer_id}
use my_rtsp_server.Rtsp.Creation
use my_rtsp_server.Server.{
  Connections, RtspServer, find_connection, insert_connection, handle_new_connection,
}

pub record Serving : Type 0 where
  pub acceptor : Acceptor
  pub server : RtspServer

-- The static function that the constructor gives the acceptor.
abbrev pub new_connection_callback : ℕ
new_connection_callback = 4

unfoldable pub new_server : Kernel → Ipv4Address → ℕ → ℕ → World → Poller → Sys Serving
unfolding Acceptor.new Acceptor.set_new_connection_callback
new_server os addr acceptor p world poller = do
  (a, poller') ← Acceptor.new os addr acceptor p poller
  pure (record {
    acceptor = Acceptor.set_new_connection_callback new_connection_callback a;
    server = record {
      connections = [];
      disconnected_list = [];
      trigger_events = 0;
      world = world;
      poller = poller';
    };
  })

unfoldable pub start : Kernel → Serving → Sys Serving
unfolding Acceptor.listen
start os s = do
  (a, poller) ← Acceptor.listen os s.acceptor s.server.poller
  pure (record s { acceptor = a; server = record (s.server) { poller = poller } })

-- The destructor; what it leaves is the poller. The connections are not deleted.
unfoldable pub destroy_server : Kernel → Serving → Sys Poller
unfolding Acceptor.destroy
destroy_server os s = Acceptor.destroy os s.acceptor s.server.poller

-- `HandleNewConnection` with the connection's constructor; `random`, `this` and `p` are the number
-- of `rand()` and the addresses of the new objects.
unfoldable pub accept_connection : Kernel → Unset → ℕ → ℕ → ℕ → ℕ → ℕ → Serving → Sys Serving
unfolding Creation.create_new
accept_connection os unset random this p cb connfd s = do
  (conn, poller) ← Creation.create_new os unset random connfd this p s.server.poller
  pure (record s {
    server = record (handle_new_connection connfd conn s.server) { poller = poller };
  })

pub find-insert_connection :
    (fd k : ℕ) (c : RtspConnection) (m : Connections)
    → find_connection fd m ≡ none
    → find_connection k (insert_connection fd c m)
      ≡ (if fd == k then some c else find_connection k m)
unfolding insert_connection find_connection
find-insert_connection fd k c m h =
    ap (λ o. find_connection k (elim o [ none ↦ (fd, c) ∷ m | some _ ↦ m ])) h

module _ {interest : List Ctl → ℕ → Option ℕ} (epoll : IsEpoll interest) where
  connect-interest :
      (fd this p k : ℕ) (s : Poller)
      → Reach s
      → interest (connect fd this p s).ctls k
        ≡ (if fd == k then some epoll_in else interest s.ctls k)
  unfolding connect tcp_conn_io_event enable epoll_events
  connect-interest fd this p k s r =
      update-write_at-interest epoll p k (tcp_conn_io_event fd this) s r

  abbrev called_back : {A : Type 0} → (ℕ → ℕ → A → Sys A) → ℕ → A → Option ℕ → Sys A
  called_back call connfd s none = pure s
  called_back call connfd s (some cb) = call cb connfd s

  handle_read-call :
      {A : Type 0} (os : Kernel) (call : ℕ → ℕ → A → Sys A) (a : Acceptor) (cb : ℕ) (s : A)
      (t : List Call)
      → a.new_cb ≡ some cb
      → Acceptor.handle_read os call a s t
        ≡ (let (connfd, t1) = Sockets.accept os a.sock_fd t in call cb connfd s t1)
  unfolding Acceptor.handle_read
  handle_read-call os call a cb s t called =
      let (connfd, t1) = Sockets.accept os a.sock_fd t in
      ap (λ o. called_back call connfd s o t1) called

  -- The state that holds a connection of `fd`, and the poller that waits for its bytes.
  abbrev Accepted : Unset → List ℕ → ℕ → ℕ → ℕ → ℕ → Serving → Serving → Type 0
  Accepted unset peer random p fd k s s' =
      (find_connection k s'.server.connections ≡ (
        if fd == k
        then some (new_connection unset fd peer random p)
        else find_connection k s.server.connections))
      × (interest s'.server.poller.ctls k
          ≡ (if fd == k then some epoll_in else interest s.server.poller.ctls k))

  -- The system has one address for the socket's peer.
  abbrev pub IsPeer : Kernel → ℕ → SockAddr → Type 0
  IsPeer os fd address = (t : List Call) → os.peer t fd ≡ address

  accept_connection-Accepted :
      (os : Kernel) (unset : Unset) (address : SockAddr) (random this p cb fd k : ℕ) (s : Serving)
      (t : List Call)
      → Reach s.server.poller
      → IsPeer os fd address
      → find_connection fd s.server.connections ≡ none
      → Accepted unset
          (os.inet_ntoa address.addr)
          random
          p
          fd
          k
          s
          (accept_connection os unset random this p cb fd s t).0
  unfolding accept_connection Creation.create_new handle_new_connection get_peer_id
  accept_connection-Accepted os unset address random this p cb fd k s t r peer free =
      let t1 = Call.getpeername fd ∷ t in
      let made = new_connection unset fd (os.inet_ntoa (os.peer t1 fd).addr) random p in
      (
        find-insert_connection fd k made s.server.connections free
            ∙ ap
                (λ a.
                  if fd == k
                  then some (new_connection unset fd (os.inet_ntoa a.addr) random p)
                  else find_connection k s.server.connections)
                (peer t1),
        connect-interest fd this p k s.server.poller r,
      )

  -- When the listening socket is ready, the accepted descriptor gets a connection as the
  -- constructor makes it, with the address of the socket's peer, and epoll waits for it to be
  -- readable; every other descriptor has the connection that it had, and is waited for as before.
  -- The conditions: the acceptor has its callback, `accept` succeeds with a descriptor that has no
  -- connection, `getpeername` always gives the same address for it, the poller's state is one that
  -- the program reaches, and `epoll_ctl` does what it documents.
  pub handle_read_lem :
      (os : Kernel) (unset : Unset) (address : SockAddr) (random this p cb fd k : ℕ) (s : Serving)
      (t : List Call)
      → Reach s.server.poller
      → s.acceptor.new_cb ≡ some cb
      → os.answer t (Call.accept s.acceptor.sock_fd) ≡ fd
      → negative fd ≡ false
      → IsPeer os fd address
      → find_connection fd s.server.connections ≡ none
      → let (s', t') =
          Acceptor.handle_read os (accept_connection os unset random this p) s.acceptor s t in
        (find_connection k s'.server.connections ≡ (
          if fd == k
          then some (new_connection unset fd (os.inet_ntoa address.addr) random p)
          else find_connection k s.server.connections))
        × (interest s'.server.poller.ctls k
            ≡ (if fd == k then some epoll_in else interest s.server.poller.ctls k))
  unfolding Sockets.accept
  handle_read_lem os unset address random this p cb fd k s t r called made valid peer free =
      let (connfd, t1) = Sockets.accept os s.acceptor.sock_fd t in
      let call = accept_connection os unset random this p in
      let name = os.inet_ntoa address.addr in
      subst (λ x. Accepted unset name random p fd k s x.0)
        (sym (handle_read-call os call s.acceptor cb s t called))
        (subst (λ n. Accepted unset name random p fd k s (call cb n s t1).0) (sym made)
          (accept_connection-Accepted os unset address random this p cb fd k s t1 r peer free))

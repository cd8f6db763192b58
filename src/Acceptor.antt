-- ===== src/Acceptor.antt =====
-- include/net/acceptor.h: the listening socket of the server, and its event. The pointers to the
-- acceptor and to its event are numbers; the program's callback is the function `new_cb` names.

use my_rtsp_server.Prelude.{ℕ, Bool, true, false, Option, none, some, if◌then◌else◌}
use my_rtsp_server.Rtp.Instance.{Ipv4Address}
use my_rtsp_server.Poller.{
  IoEvent, create_new, enable, event_read, Poller, set_event, update_io_event, remove_io_event,
}
use my_rtsp_server.Sockets.System.{Kernel, Sys, pure, ◌>>=◌, ◌>>◌}
use my_rtsp_server.Sockets

pub record Acceptor : Type 0 where
  pub addr : Ipv4Address
  pub accept_io_event : ℕ
  pub sock_fd : ℕ
  pub listening : Bool
  pub new_cb : Option ℕ

-- The static function that is its read callback.
abbrev pub read_callback : ℕ
read_callback = 3

unfoldable pub accept_event : ℕ → ℕ → IoEvent
accept_event sock_fd this =
    enable event_read (record (create_new sock_fd this) { read_cb = some read_callback })

abbrev pub get_listenning : Acceptor → Bool
get_listenning a = a.listening

unfoldable pub set_new_connection_callback : ℕ → Acceptor → Acceptor
set_new_connection_callback cb a = record a { new_cb = some cb }

module _ (os : Kernel) where
  -- The constructor; its event is put at `p`. What `Bind` returns is not looked at.
  unfoldable pub new : Ipv4Address → ℕ → ℕ → Poller → Sys (Acceptor × Poller)
  new addr this p poller = do
    sockfd ← Sockets.create_tcp_sock os
    Sockets.set_reuse_addr os sockfd 1
    Sockets.bind os sockfd addr.ip addr.port
    pure (
      record {
        addr = addr;
        accept_io_event = p;
        sock_fd = sockfd;
        listening = false;
        new_cb = none;
      },
      record poller { io_events = set_event p (accept_event sockfd this) poller.io_events },
    )

  -- What `listen` returns is not looked at.
  unfoldable pub listen : Acceptor → Poller → Sys (Acceptor × Poller)
  listen a poller = do
    Sockets.listen os a.sock_fd 1024
    pure (record a { listening = true }, update_io_event a.accept_io_event poller)

  -- The destructor, with that of its socket.
  unfoldable pub destroy : Acceptor → Poller → Sys Poller
  destroy a poller = do
    Sockets.close os a.sock_fd
    pure (if a.listening then (remove_io_event a.accept_io_event poller).1 else poller)

  -- `HandleRead`, with what the callback does with a descriptor.
  unfoldable pub handle_read : {A : Type 0} → (ℕ → ℕ → A → Sys A) → Acceptor → A → Sys A
  handle_read call a s = do
    connfd ← Sockets.accept os a.sock_fd
    elim a.new_cb [ none ↦ pure s | some cb ↦ call cb connfd s ]

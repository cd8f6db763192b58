-- ===== src/TcpConnection.antt =====
-- src/net/tcp_connection.cpp: the event of a connection's socket. What the connection does with
-- what it reads is in `Rtsp/Connection.antt`.
pub mod Handling
pub mod Defaults
mod Tests
use my_rtsp_server.Prelude.{ℕ, Bool, Option, some, if◌then◌else◌}
use my_rtsp_server.Poller.{
  IoEvent, create_new, enable, disable, has, event_read, event_write, event_error, Poller,
  update_io_event, remove_io_event, set_event,
}

-- The static functions that are its callbacks.
abbrev pub read_callback : ℕ
read_callback = 0

abbrev pub write_callback : ℕ
write_callback = 1

abbrev pub error_callback : ℕ
error_callback = 2

-- The event that the constructor makes; `this` is its argument.
unfoldable pub tcp_conn_io_event : ℕ → ℕ → IoEvent
tcp_conn_io_event sockfd this = enable event_read (record (create_new sockfd this) {
  read_cb = some read_callback;
  write_cb = some write_callback;
  error_cb = some error_callback;
})

-- `p` points to the event.
abbrev pub write_event : ℕ → IoEvent → Poller → Poller
write_event p e s = record s { io_events = set_event p e s.io_events }

unfoldable pub connect : ℕ → ℕ → ℕ → Poller → Poller
connect sockfd this p s = update_io_event p (write_event p (tcp_conn_io_event sockfd this) s)

unfoldable pub disconnect : ℕ → Poller → Poller
disconnect p s = (remove_io_event p s).1

-- The functions of the three flags are alike.
unfoldable pub enable_handling : ℕ → ℕ → Poller → Poller
enable_handling flag p s =
    if has flag (s.io_events p).event
    then s
    else update_io_event p (write_event p (enable flag (s.io_events p)) s)

unfoldable pub disable_handling : ℕ → ℕ → Poller → Poller
disable_handling flag p s =
    if has flag (s.io_events p).event
    then update_io_event p (write_event p (disable flag (s.io_events p)) s)
    else s

abbrev pub enable_read_handling : ℕ → Poller → Poller
enable_read_handling p s = enable_handling event_read p s

abbrev pub enable_write_handling : ℕ → Poller → Poller
enable_write_handling p s = enable_handling event_write p s

abbrev pub enable_error_handling : ℕ → Poller → Poller
enable_error_handling p s = enable_handling event_error p s

abbrev pub disable_read_handling : ℕ → Poller → Poller
disable_read_handling p s = disable_handling event_read p s

abbrev pub disable_write_handling : ℕ → Poller → Poller
disable_write_handling p s = disable_handling event_write p s

abbrev pub disable_error_handling : ℕ → Poller → Poller
disable_error_handling p s = disable_handling event_error p s

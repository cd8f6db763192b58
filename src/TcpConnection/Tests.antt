-- ===== src/TcpConnection/Tests.antt =====
-- The theorem on a connection's event at a connection that waits for room to write, too.
use my_rtsp_server.Prelude.{◌≡◌, some}
use my_rtsp_server.Poller.{Poller, new, create_new, epoll_events}
use my_rtsp_server.Poller.Flags.{writing}
use my_rtsp_server.Poller.Interest.{start}
use my_rtsp_server.Poller.Tests.{interest, interest-IsEpoll}
use my_rtsp_server.TcpConnection.{connect, enable_write_handling}
use my_rtsp_server.TcpConnection.Handling.{connected, enabled, Connected-interest}

abbrev state : Poller
state = enable_write_handling 3 (connect 7 9 3 (new (λ p. create_new 0 0)))

Connected-interest_example : interest state.ctls 7 ≡ some (epoll_events (state.io_events 3))
Connected-interest_example =
    Connected-interest interest-IsEpoll {sockfd = 7} {p = 3} {s = state}
      (enabled writing (connected 9 (start (λ p. create_new 0 0))))

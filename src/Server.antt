-- ===== src/Server.antt =====
-- src/net/rtsp_server.cpp: the connections of the server, and how they end: a connection that is
-- lost is listed, and deleted when the trigger event is handled (`HandleTriggleEvents` of
-- src/net/event_scheduler.cpp). The media sessions are in `Rtsp/World.antt`.
pub mod Owners
pub mod Disconnection
pub mod Url
pub mod Accepting
pub mod Lifecycle
mod Tests
use my_rtsp_server.Prelude.{
  ℕ, zero, suc, ◌≡◌, Bool, true, false, ◌||◌, Option, none, some, List, [], ◌∷◌, ◌++◌, ◌==◌,
  if◌then◌else◌, ◌>>=◌,
}
use my_rtsp_server.Rtsp.{RtspConnection}
use my_rtsp_server.Rtsp.World.{World}
use my_rtsp_server.Poller.{Poller}
use my_rtsp_server.Rtsp.Response.{delete_connection}

abbrev pub Connections : Type 0
Connections = List (ℕ × RtspConnection)

-- `m_connections_` is an association list; of the scheduler, `trigger_events` counts the times that
-- the server's event stands in `m_trigger_events_`.
pub record RtspServer : Type 0 where
  pub connections : Connections
  pub disconnected_list : List ℕ
  pub trigger_events : ℕ
  pub world : World
  pub poller : Poller

unfoldable pub find_connection : ℕ → Connections → Option RtspConnection
find_connection fd [] = none
find_connection fd ((k, c) ∷ m) = if k == fd then some c else find_connection fd m

-- A map's `insert` leaves an entry that is there.
unfoldable pub insert_connection : ℕ → RtspConnection → Connections → Connections
insert_connection fd c m = elim (find_connection fd m) [ none ↦ (fd, c) ∷ m | some _ ↦ m ]

unfoldable pub erase_connection : ℕ → Connections → Connections
erase_connection fd [] = []
erase_connection fd ((k, c) ∷ m) =
    if k == fd then erase_connection fd m else (k, c) ∷ erase_connection fd m

-- `conn` is the connection that the constructor makes for the socket.
pub handle_new_connection : ℕ → RtspConnection → RtspServer → RtspServer
handle_new_connection connfd conn s = record s {
  connections = insert_connection connfd conn s.connections;
}

pub handle_disconnection : ℕ → RtspServer → RtspServer
handle_disconnection sockfd s = record s {
  disconnected_list = s.disconnected_list ++ (sockfd ∷ []);
  trigger_events = suc s.trigger_events;
}

-- The loop of `HandleDisconnectionList`. `none`: the assert, or a fault of the destructor.
unfoldable pub delete_all :
    List ℕ → Connections → World → Poller → Option (Connections × World × Poller)
unfolding delete_connection
delete_all [] m w poller = some (m, w, poller)
delete_all (fd ∷ fds) m w poller = do
  c ← find_connection fd m
  (w', poller') ← delete_connection c w poller
  delete_all fds (erase_connection fd m) w' poller'

pub handle_disconnection_list : RtspServer → Option RtspServer
handle_disconnection_list s = do
  (m, w, poller) ← delete_all s.disconnected_list s.connections s.world s.poller
  some (record s { connections = m; world = w; poller = poller; disconnected_list = [] })

-- The loop of `HandleTriggleEvents` over the server's events.
pub handle_events : ℕ → RtspServer → Option RtspServer
handle_events zero s = some s
handle_events (suc n) s = do s' ← handle_disconnection_list s; handle_events n s'

pub handle_triggle_events : RtspServer → Option RtspServer
handle_triggle_events s = do
  s' ← handle_events s.trigger_events s
  some (record s' { trigger_events = 0 })

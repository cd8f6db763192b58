-- ===== src/Server/Tests.antt =====
-- The theorems on the end of connections at a server with two, of which one is lost.
use my_rtsp_server.Prelude.{ℕ, ◌≡◌, refl, true, false, none, some, [], ◌∷◌, if◌then◌else◌, Returns}
use my_rtsp_server.Prelude.Text.{codes, bytes_eq}
use my_rtsp_server.Prelude.{
  List, ◌++◌, arith, ◌⊎◌, inl, inr, ◌==◌, ==_iff, subst, sym, ap, ◌∙◌, Bool-cases,
}
use my_rtsp_server.Sockets.System.{Kernel}
use my_rtsp_server.Sockets.{af_inet, get_local_ip, local_ip_loop}
use my_rtsp_server.Rtsp.RequestLine.{is_none_method, parse_request1}
use my_rtsp_server.Rtsp.RequestLine.Urls.{words}
use my_rtsp_server.Server.Url.{get_url, get_url-parse_request1}
use my_rtsp_server.Poller
use my_rtsp_server.Poller.{epoll_in}
use my_rtsp_server.Poller.Interest.{start}
use my_rtsp_server.Poller.Tests.{interest, interest-IsEpoll}
use my_rtsp_server.Acceptor
use my_rtsp_server.Rtsp.Creation.{Unset, new_connection}
use my_rtsp_server.Server.{handle_disconnection}
use my_rtsp_server.Server.Accepting.{
  Serving, accept_connection, new_connection_callback, handle_read_lem,
}
use my_rtsp_server.Server.Lifecycle.{handle_triggle_events-accept_connection}
use my_rtsp_server.Session.{MediaSession, track_id0, track_id1}
use my_rtsp_server.Rtsp.{RtspConnection, setup, none_method}
use my_rtsp_server.Rtsp.World.{lookup_media_session}
use my_rtsp_server.Server.{RtspServer, find_connection, handle_triggle_events}
use my_rtsp_server.Rtp.Instance.{RtpInstance, new_over_tcp}
use my_rtsp_server.Poller.Interest.{is_some}
use my_rtsp_server.Server.Owners.{IsDeletable, holds_rtp, holds_rtcp}
use my_rtsp_server.Server.Disconnection.{IsPending, IsOwned, is_listed, handle_triggle_events_lem}

abbrev live : MediaSession
live = record {
  session_name = codes "live";
  sdp = [];
  track0 = record {
    rtp_sink = some 1;
    track_id = track_id0;
    is_alive = true;
    rtp_instances = 3 ∷ 4 ∷ [];
  };
  track1 = record { rtp_sink = none; track_id = track_id1; is_alive = false; rtp_instances = [] };
  is_start_multicast = false;
  multicast_addr = [];
  multicast_rtp0 = none;
  multicast_rtp1 = none;
  multicast_rtcp0 = none;
  multicast_rtcp1 = none;
}

-- The client of the socket `fd` has the instance `p`.
abbrev client : ℕ → ℕ → RtspConnection
client fd p = record {
  sock_fd = fd;
  io_event = fd;
  peer_ip = codes "10.0.0.2";
  input_buffer = record { block = []; buffer_size = 0; read_index = 0; write_index = 0 };
  output_buffer = record { block = []; buffer_size = 0; read_index = 0; write_index = 0 };
  method = none_method;
  url = [];
  suffix = [];
  cseq = 0;
  peer_rtp_port = 0;
  peer_rtcp_port = 0;
  track_id = track_id0;
  rtp0 = some p;
  rtp1 = none;
  rtcp0 = none;
  rtcp1 = none;
  session = some (codes "live");
  session_id = 1;
  is_rtp_over_tcp = true;
  rtp_channel = 0;
  sent = [];
  disconnections = 1;
}

abbrev sending : ℕ → RtpInstance
sending fd = new_over_tcp fd 0 0 (record { ip = []; port = 0 })

abbrev server : RtspServer
server = record {
  connections = (8, client 8 3) ∷ (9, client 9 4) ∷ [];
  disconnected_list = 8 ∷ [];
  trigger_events = 1;
  world = record {
    sessions = (codes "live", live) ∷ [];
    instances = λ p. if p == 3 then some (sending 8) else if p == 4 then some (sending 9) else none;
    rtcp_instances = λ p. none;
    next = 5;
    closed = [];
  };
  poller = Poller.new (λ p. Poller.create_new 0 0);
}

server-IsPending : IsPending server.disconnected_list server.connections
unfolding find_connection
server-IsPending = (refl, (client 8 3, refl), refl)

-- The two connections.
server-found :
    (fd : ℕ) (c : RtspConnection)
    → find_connection fd server.connections ≡ some c
    → ((fd ≡ 8) × (c ≡ client 8 3)) ⊎ ((fd ≡ 9) × (c ≡ client 9 4))
unfolding find_connection
server-found fd c h = elim (Bool-cases (8 == fd)) [
  | inl a ↦ let k = rw a at h in inl (sym ((==_iff 8 fd).0 a), cc)
  | inr a ↦ elim (Bool-cases (9 == fd)) [
    | inl b ↦ let k = rw (a, b) at h in inr (sym ((==_iff 9 fd).0 b), cc)
    | inr b ↦ let k = rw (a, b) at h in absurd cc
  ]
]

client-IsDeletable :
    (fd p : ℕ) → is_some (server.world.instances p) ≡ true → IsDeletable (client fd p) server.world
unfolding lookup_media_session bytes_eq
client-IsDeletable fd p there = record {
  named = λ q h. (codes "live", live, refl, refl);
  rtp = λ q h.
      subst (λ x. is_some (server.world.instances x) ≡ true) ((==_iff p q).0 (ground (arith, h)))
        there;
  rtcp = λ q h. cc;
  two = λ q. ground arith;
  two_rtcp = λ q. refl;
}

unequal : (a b : ℕ) → a ≡ b → ¬ ((a == b) ≡ false)
unequal a b s h = let t = (==_iff a b).1 s in cc

server-IsOwned : IsOwned server.connections server.world
server-IsOwned = record {
  deletable = λ fd c h. elim (server-found fd c h) [
    | inl (a, b) ↦ subst (λ d. IsDeletable d server.world) (sym b) (client-IsDeletable 8 3 refl)
    | inr (a, b) ↦ subst (λ d. IsDeletable d server.world) (sym b) (client-IsDeletable 9 4 refl)
  ];
  apart = λ fd k p c d g h e o. elim (server-found fd c g) [
    | inl (x, y) ↦
        let in_c : holds_rtp p (client 8 3) ≡ true = sym (ap (holds_rtp p) y) ∙ o in
        elim (server-found k d h) [
          | inl (x', y') ↦ absurd (unequal fd k (x ∙ sym x') e)
          | inr (x', y') ↦ ap (holds_rtp p) y' ∙ ground (arith, in_c)
        ]
    | inr (x, y) ↦
        let in_c : holds_rtp p (client 9 4) ≡ true = sym (ap (holds_rtp p) y) ∙ o in
        elim (server-found k d h) [
          | inl (x', y') ↦ ap (holds_rtp p) y' ∙ ground (arith, in_c)
          | inr (x', y') ↦ absurd (unequal fd k (x ∙ sym x') e)
        ]
  ];
  apart_rtcp = λ fd k p c d g h e o. elim (server-found k d h) [
    | inl (x, y) ↦ ap (holds_rtcp p) y
    | inr (x, y) ↦ ap (holds_rtcp p) y
  ];
}

handle_triggle_events_lem_example :
    Returns
      (λ s'.
        (s'.trigger_events ≡ 0)
        × (s'.disconnected_list ≡ [])
        × (find_connection 8 s'.connections
            ≡ (if is_listed 8 (8 ∷ []) then none else find_connection 8 server.connections))
        × (s'.world.instances 3 ≡ none)
        × (s'.world.rtcp_instances 3 ≡ none)
        × IsOwned s'.connections s'.world)
      (handle_triggle_events server)
unfolding find_connection
handle_triggle_events_lem_example =
    handle_triggle_events_lem 0 8 3 server refl server-IsPending server-IsOwned

-- A system with one network interface.
abbrev kernel : Kernel
kernel = record {
  answer = λ t c. 0;
  peer = λ t fd. record { family = af_inet; addr = 0; port = 0 };
  interfaces = λ t. record { name = codes "eth0"; family = af_inet; addr = 2 } ∷ [];
  left_in_set = λ t fd. true;
  inet_addr = λ ip. 0;
  inet_ntoa = λ n. codes "10.0.0.2";
}

get_url-parse_request1_example :
    (url : List ℕ) × ((get_url kernel 8554 live []).0 ≡ some url)
    × (parse_request1
          (words (codes "SETUP") (url ++ codes "/track0") (codes "RTSP/1.0"))
          (client 7 3)
        ≡ some (
          true,
          record (client 7 3) {
            method = setup;
            url = url ++ codes "/track0";
            suffix = codes "live/track0";
          },
        ))
unfolding get_local_ip local_ip_loop bytes_eq is_none_method
get_url-parse_request1_example =
    get_url-parse_request1 kernel [] (codes "10.0.0.2") 8554 live (codes "SETUP") (codes "/track0")
      (codes "RTSP/1.0") (client 7 3) refl (omega arith, omega arith, refl) refl
      (omega arith, omega arith, refl) (omega arith, omega arith, refl)
      (omega arith, omega arith, refl) refl (omega arith, omega arith, refl)

-- A server that listens at the descriptor 3, and the client 9.
abbrev unset : Unset
unset = record {
  cseq = 0;
  peer_rtp_port = 0;
  peer_rtcp_port = 0;
  rtp_channel = 0;
  input_block = [];
  output_block = [];
}

abbrev quiet : RtspServer
quiet = record {
  connections = [];
  disconnected_list = [];
  trigger_events = 0;
  world = record {
    sessions = [];
    instances = λ p. none;
    rtcp_instances = λ p. none;
    next = 0;
    closed = [];
  };
  poller = Poller.new (λ p. Poller.create_new 0 0);
}

abbrev serving : Serving
serving = record {
  acceptor = record {
    addr = record { ip = codes "0.0.0.0"; port = 8554 };
    accept_io_event = 1;
    sock_fd = 3;
    listening = true;
    new_cb = some new_connection_callback;
  };
  server = quiet;
}

abbrev accepting : Kernel
accepting = record kernel { answer = λ t c. 9 }

handle_read_lem_example :
    let (s', t') =
      Acceptor.handle_read accepting
        (accept_connection accepting unset 77 100 200)
        serving.acceptor
        serving
        [] in
    (find_connection 9 s'.server.connections
      ≡ some (new_connection unset 9 (codes "10.0.0.2") 77 200))
    × (interest s'.server.poller.ctls 9 ≡ some epoll_in)
unfolding find_connection
handle_read_lem_example =
    handle_read_lem interest-IsEpoll accepting unset
      (record { family = af_inet; addr = 0; port = 0 }) 77 100 200 new_connection_callback 9 9
      serving [] (start (λ p. Poller.create_new 0 0)) refl refl refl (λ t. refl) refl

handle_triggle_events-accept_connection_example :
    Returns
      (λ s'.
        (find_connection 9 s'.connections ≡ find_connection 9 [])
        × (s'.disconnected_list ≡ [])
        × (s'.trigger_events ≡ 0)
        × (s'.world ≡ record (quiet.world) { closed = 9 ∷ [] })
        × (interest s'.poller.ctls 9 ≡ none))
      (handle_triggle_events (
        handle_disconnection 9
          (accept_connection accepting unset 77 100 200 0 9 serving []).0.server))
unfolding find_connection
handle_triggle_events-accept_connection_example =
    handle_triggle_events-accept_connection interest-IsEpoll accepting unset 77 100 200 0 9 9
      serving [] (start (λ p. Poller.create_new 0 0)) refl refl refl

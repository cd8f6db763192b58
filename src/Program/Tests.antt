-- ===== src/Program/Tests.antt =====
-- The program with two files, at a system whose descriptors are small numbers.
use my_rtsp_server.Prelude.{ℕ, ◌≡◌, refl, some, List, [], ◌∷◌, arith}
use my_rtsp_server.Prelude.Text.{codes}
use my_rtsp_server.Rtp.{AvFrame}
use my_rtsp_server.Rtp.Tests.{empty_packet}
use my_rtsp_server.Poller.{create_new}
use my_rtsp_server.Poller.Tests.{interest, interest-IsEpoll}
use my_rtsp_server.Sockets.System.{Call, Kernel}
use my_rtsp_server.Sockets.Tests.{kernel}
use my_rtsp_server.Program.{Launch, Running, running, main}
use my_rtsp_server.Program.Startup.{Ready, Sound, main_lem}

-- The new socket has the descriptor 6.
abbrev answer : List Call → Call → ℕ
answer t (Call.socket domain kind protocol) = 6
answer t c = 0

abbrev system : Kernel
system = record kernel { answer = answer }

abbrev blank : ℕ → AvFrame
blank p = record { block = []; start = 0; frame_size = 0 }

abbrev launch : Launch
launch = record {
  event_fd = some 4;
  timer_fd = some 5;
  video_fd = some 7;
  audio_fd = some 8;
  scheduler = 100;
  timers = 101;
  wake_event = 200;
  timer_event = 201;
  acceptor = 102;
  accept_event = 202;
  io_events = λ p. create_new 0 0;
  video_frames = blank;
  audio_frames = blank;
  video_packet = empty_packet;
  audio_packet = empty_packet;
  video_ssrc = 1;
  audio_ssrc = 2;
  video_now = 1000;
  audio_now = 1001;
}

main_lem_example :
    (r : Running) × ((main system launch
        (codes "server" ∷ codes "a.h264" ∷ codes "a.aac" ∷ [])
        []).0
      ≡ running r)
    × Ready interest launch (6, 4, 5) r
    × Sound r
main_lem_example =
    main_lem interest-IsEpoll system launch 4 5 7 8 (codes "server") (codes "a.h264")
      (codes "a.aac") [] refl refl refl refl (omega arith) (omega arith) refl

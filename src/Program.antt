-- ===== src/Program.antt =====
-- src/main.cpp: the program's objects, built up to the call of the loop. The addresses of the
-- objects that others point to, what the system answers and what the constructors leave unset are
-- the fields of `Launch`; a sink is known by its number. The workers run beside all this: of the
-- pool there are the number of its threads and the tasks that it was given, and a source is as its
-- constructor leaves it, before a task of it has run. The calls before a fault are left out.

pub mod Building
pub mod Startup
mod Tests
use mathlib.Core.Option
use my_rtsp_server.Prelude.{
  ℕ, ◌+◌, ◌/◌, Bool, Option, none, some, List, [], ◌∷◌, ◌++◌, ◌==◌, if◌then◌else◌, ◌>>=◌,
}
use my_rtsp_server.Prelude.Text.{codes}
use my_rtsp_server.Rtp.{RtpPacket, AvFrame, set_send_frame_callback}
use my_rtsp_server.Rtp.H264
use my_rtsp_server.Rtp.Aac
use my_rtsp_server.Rtp.Instance.{Ipv4Address}
use my_rtsp_server.Source.Creation.{
  FileSource, open_h264_source, open_aac_source, default_frame_num,
}
use my_rtsp_server.Source.Delivery
use my_rtsp_server.Session
use my_rtsp_server.Session.{MediaSession, track_id0, track_id1, add_rtp_sink}
use my_rtsp_server.Session.Sdp.Whole.{Sink, h264, aac}
use my_rtsp_server.Poller.{IoEvent}
use my_rtsp_server.Scheduler.{EventScheduler}
use my_rtsp_server.Scheduler.Construction
use my_rtsp_server.Scheduler.Construction.{Created, no_event_fd, no_timers, created}
use my_rtsp_server.Sockets.System.{Call, Kernel}
use my_rtsp_server.Rtsp.World.{World, add_media_session}
use my_rtsp_server.Server.{RtspServer}
use my_rtsp_server.Server.Accepting.{Serving, new_server, start}
use my_rtsp_server.Server.Url.{get_url}

pub record Launch : Type 0 where
  pub event_fd : Option ℕ
  pub timer_fd : Option ℕ
  pub video_fd : Option ℕ
  pub audio_fd : Option ℕ
  pub scheduler : ℕ
  pub timers : ℕ
  pub wake_event : ℕ
  pub timer_event : ℕ
  pub acceptor : ℕ
  pub accept_event : ℕ
  pub io_events : ℕ → IoEvent
  pub video_frames : ℕ → AvFrame
  pub audio_frames : ℕ → AvFrame
  pub video_packet : RtpPacket
  pub audio_packet : RtpPacket
  pub video_ssrc : ℕ
  pub audio_ssrc : ℕ
  pub video_now : ℕ
  pub audio_now : ℕ

-- The sinks, their timer events and the sources' tasks have the numbers 0 and 1.
abbrev pub video : ℕ
video = 0

abbrev pub audio : ℕ
audio = 1

pub record Running : Type 0 where
  pub scheduler : EventScheduler
  pub threads : ℕ
  pub tasks : List ℕ
  pub serving : Serving
  pub video_source : FileSource
  pub audio_source : FileSource
  pub sinks : ℕ → Sink
  pub video_timer : ℕ
  pub audio_timer : ℕ
  pub url : Option (List ℕ)

-- What `main` comes to: the text on its usage, a use of a null pointer or an assert that fails, or
-- the loop.
pub data Launched : Type 0 where
  usage fault : Launched
  running : Running → Launched

-- The calls of `AddTask` in a source's constructor.
abbrev pub first_tasks : ℕ → List ℕ
first_tasks task = task ∷ task ∷ task ∷ task ∷ []

abbrev pub ip_addr : Ipv4Address
ip_addr = record { ip = codes "0.0.0.0"; port = 8554 }

-- The session "live" with its two sinks.
unfoldable pub live_session : MediaSession
unfolding Session.new add_rtp_sink
live_session =
    (add_rtp_sink track_id1 audio (add_rtp_sink track_id0 video (Session.new (codes "live"))).1).1

abbrev pub empty_world : World
empty_world = record {
  sessions = [];
  instances = λ p. none;
  rtcp_instances = λ p. none;
  next = 0;
  closed = [];
}

-- Each sink's timer, from the sink's constructor.
unfoldable pub with_sinks :
    Launch → FileSource → FileSource → EventScheduler → ℕ × ℕ × EventScheduler
unfolding Delivery.start
with_sinks l v a s =
    let (video_timer, s1) = Delivery.start l.video_now video (1000 / v.fps) s in
    let (audio_timer, s2) = Delivery.start l.audio_now audio (1000 / a.fps) s1 in
    (video_timer, audio_timer, s2)

-- The sinks behind `AddRtpSink`.
abbrev pub sinks_of : Launch → FileSource → FileSource → ℕ → Sink
sinks_of l v a p =
    let picture = H264.new v.fps l.video_packet l.video_ssrc in
    let sound = Aac.new a.fps l.audio_packet l.audio_ssrc in
    if p == video
    then h264 (record picture { sink = set_send_frame_callback picture.sink })
    else aac (record sound { sink = set_send_frame_callback sound.sink })

-- The rest of `main`, from the scheduler and the sources on.
unfoldable pub serve :
    Kernel → Launch → EventScheduler → FileSource → FileSource → List Call → Running × List Call
unfolding with_sinks live_session add_media_session new_server start get_url
serve os l s v a t =
    let (serving, t1) = new_server os ip_addr l.acceptor l.accept_event empty_world s.poller t in
    let (video_timer, audio_timer, s') = with_sinks l v a s in
    let world = record empty_world { sessions = (add_media_session live_session []).1 } in
    let added = record serving { server = record (serving.server) { world = world } } in
    let (served, t2) = start os added t1 in
    let (url, t3) = get_url os ip_addr.port live_session t2 in
    (
      record {
        scheduler = record s' { poller = served.server.poller };
        threads = 8;
        tasks = first_tasks video ++ first_tasks audio;
        serving = served;
        video_source = v;
        audio_source = a;
        sinks = sinks_of l v a;
        video_timer = video_timer;
        audio_timer = audio_timer;
        url = url;
      },
      t3,
    )

-- The scheduler that `main` can use: `UsageEnvironment::CreateNew` gives the null pointer for that
-- of the scheduler, and on a scheduler without its timers the first sink adds a timer through the
-- null pointer.
unfoldable pub environment : Created → Option EventScheduler
environment no_event_fd = none
environment (no_timers s) = none
environment (created s) = some s

unfoldable pub launched :
    Kernel
    → Launch
    → Option EventScheduler
    → Option FileSource
    → Option FileSource
    → List Call
    → Launched × List Call
unfolding serve
launched os l (some s) (some v) (some a) t = let (r, t') = serve os l s v a t in (running r, t')
launched os l none v a t = (fault, t)
launched os l (some s) none a t = (fault, t)
launched os l (some s) (some v) none t = (fault, t)

-- `argv` are the arguments, the program's name among them.
unfoldable pub main : Kernel → Launch → List (List ℕ) → List Call → Launched × List Call
unfolding launched environment
main os l (name ∷ video_file ∷ audio_file ∷ []) t =
    launched os l
      (environment (
        Construction.create_new l.event_fd l.timer_fd l.scheduler l.timers l.wake_event
          l.timer_event l.io_events))
      (open_h264_source l.video_fd video_file l.video_frames)
      (open_aac_source l.audio_fd audio_file l.audio_frames) t
main os l argv t = (usage, t)

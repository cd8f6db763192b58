-- ===== src/Program/Startup.antt =====
-- The state in which the program enters its loop.
use my_rtsp_server.Prelude.{
  ℕ, ◌+◌, ◌<◌, ◌≡◌, refl, ◌∙◌, true, false, ◌||◌, Option, none, some, List, [], ◌∷◌, ◌++◌, ◌==◌,
  if◌then◌else◌,
}
use my_rtsp_server.Prelude.Text.{codes, bytes_eq}
use my_rtsp_server.Timer
use my_rtsp_server.Timer.{find_timer, insert_timer}
use my_rtsp_server.Poller.{Ctl, epoll_in}
use my_rtsp_server.Poller.Interest.{IsEpoll, Reach, updated, written}
use my_rtsp_server.Source.Delivery
use my_rtsp_server.Session.{MediaSession}
use my_rtsp_server.Session
use my_rtsp_server.ThreadPool
use my_rtsp_server.Scheduler.{add_timer_event_run_every}
use my_rtsp_server.Scheduler.Startup.{either, standing-Reach}
use my_rtsp_server.Sockets.System.{Call, Kernel, negative}
use my_rtsp_server.Acceptor
use my_rtsp_server.Rtsp.World.{lookup_media_session, add_media_session}
use my_rtsp_server.Server.Accepting.{new_server, start}
use my_rtsp_server.Program.Building.{
  listening_socket, stands, serves, main-serves, serves-interest, serves-timers,
}
use my_rtsp_server.Timer.Invariant.{
  IsValid, add_timer-IsValid, empty-IsValid, modify_timeout-IsValid,
}
use my_rtsp_server.Source.Starving.{Served}
use my_rtsp_server.ThreadPool.{ThreadPool}
use my_rtsp_server.ThreadPool.Given.{Given, Given-Reach, Given-fifo}
use my_rtsp_server.Program.{
  Launch, Running, running, video, audio, live_session, with_sinks, serve, main,
}

-- Each component is in a state that its invariants hold in, the pool whatever its workers have done
-- in the meantime.
pub record Sound (r : Running) : Type 0 where
  pub timers : IsValid r.scheduler.time_manager
  pub poller : Reach r.scheduler.poller
  pub pool : (p : ThreadPool) → Given r.threads r.tasks p → ThreadPool.Reach 8 p
  pub source : Served r.video_source.source [] 0 0

-- What the loop has to work on: the two tracks of the session "live", the sinks' timers, the first
-- tasks of the sources, which workers may have taken, and the descriptors that epoll waits for.
pub record Ready (interest : List Ctl → ℕ → Option ℕ) (l : Launch) (fds : ℕ × ℕ × ℕ) (r : Running)
    : Type 0 where
  pub session :
      (s : MediaSession) × (lookup_media_session (codes "live") r.serving.server.world.sessions
        ≡ some s)
      × (s.track0.rtp_sink ≡ some video)
      × (s.track1.rtp_sink ≡ some audio)
      × (s.track0.is_alive ≡ true)
      × (s.track1.is_alive ≡ true)
  pub picture_timer :
      find_timer r.video_timer r.scheduler.time_manager.timers
      ≡ some (Timer.new (some video) (l.video_now + 40) 40)
  pub sound_timer :
      find_timer r.audio_timer r.scheduler.time_manager.timers
      ≡ some (Timer.new (some audio) (l.audio_now + 23) 23)
  pub tasks :
      (p : ThreadPool)
      → Given r.threads r.tasks p
      → p.tasks.taken ++ p.tasks.task_que
        ≡ video ∷ video ∷ video ∷ video ∷ audio ∷ audio ∷ audio ∷ audio ∷ []
  pub waits :
      (k : ℕ)
      → interest r.scheduler.poller.ctls k
        ≡ (if (fds.0 == k) || ((fds.1 == k) || (fds.2 == k)) then some epoll_in else none)

-- What the program is when it enters its loop: the session "live" is found by its name, its two
-- tracks are alive with the video and the audio sink; the sinks' timers go off after 40 and 23 ms
-- and so often again; whatever the workers have done in the meantime, the tasks that they have
-- taken and those that wait are four of the video source and then four of the audio source; epoll
-- waits for the listening socket, the eventfd and the timer to be readable, and for nothing else;
-- and the invariants of the parts hold: the timer manager is valid, the poller and the pool are in
-- states that their operations reach, and the video source is as its constructor leaves it, before
-- a task of it has run. The conditions: there are two arguments, the eventfd, the timer and the
-- listening socket could be made, both files are opened at a descriptor above 0, and `epoll_ctl`
-- does what it documents.
pub main_lem :
    {interest : List Ctl → ℕ → Option ℕ}
    → IsEpoll interest
    → (os : Kernel) (l : Launch) (event_fd timer_fd video_fd audio_fd : ℕ)
      (name video_file audio_file : List ℕ) (t : List Call)
    → l.event_fd ≡ some event_fd
    → l.timer_fd ≡ some timer_fd
    → l.video_fd ≡ some video_fd
    → l.audio_fd ≡ some audio_fd
    → 0 < video_fd
    → 0 < audio_fd
    → negative (os.answer t listening_socket) ≡ false
    → (r : Running) × ((main os l (name ∷ video_file ∷ audio_file ∷ []) t).0 ≡ running r)
      × Ready interest l (os.answer t listening_socket, event_fd, timer_fd) r
      × Sound r
unfolding serves serve add_media_session lookup_media_session live_session Session.new
    Session.add_rtp_sink bytes_eq start Acceptor.listen Acceptor.new new_server
    Acceptor.set_new_connection_callback with_sinks Delivery.start add_timer_event_run_every stands
main_lem epoll os l event_fd timer_fd video_fd audio_fd name video_file audio_file t a b c d v w
      made =
    let s = serves os l event_fd timer_fd video_fd audio_fd name video_file audio_file t in
    let stands_waits =
      serves-interest os l event_fd timer_fd video_fd audio_fd name video_file audio_file t epoll in
    let (picture, sound) =
      serves-timers os l event_fd timer_fd video_fd audio_fd name video_file audio_file t in
    (
      s,
      main-serves os l event_fd timer_fd video_fd audio_fd name video_file audio_file t a b c d v w,
      record {
        session = (live_session, refl, refl, refl, refl, refl);
        picture_timer = picture;
        sound_timer = sound;
        tasks = λ p g. Given-fifo g;
        waits = λ k.
            stands_waits k
            ∙ either (os.answer t listening_socket == k) ((event_fd == k) || (timer_fd == k));
      },
      record {
        timers = add_timer-IsValid (some audio) (l.audio_now + 23) 23 _ (
            add_timer-IsValid (some video) (l.video_now + 40) 40 _
              (modify_timeout-IsValid Timer.empty empty-IsValid));
        poller = updated l.accept_event (
            written _ (
              standing-Reach event_fd timer_fd l.scheduler l.timers l.wake_event l.timer_event
                l.io_events));
        pool = λ p g. Given-Reach g;
        source = Served.start l.video_frames;
      },
    )

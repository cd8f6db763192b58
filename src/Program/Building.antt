-- ===== src/Program/Building.antt =====
-- The objects that the program has built where no call failed.
use my_rtsp_server.Prelude.{
  ℕ, ◌+◌, ◌<◌, ◌≡◌, refl, ap, ◌∙◌, ◌||◌, Option, none, some, List, [], ◌∷◌, ◌==◌, if◌then◌else◌,
  lt→ltb, assert, ◌>>◌,
}
use my_rtsp_server.Rtp.{AvFrame}
use my_rtsp_server.Timer
use my_rtsp_server.Timer.{find_timer, insert_timer}
use my_rtsp_server.Poller.{Ctl, Poller, epoll_in, epoll_events, enable}
use my_rtsp_server.Poller
use my_rtsp_server.Poller.Interest.{IsEpoll}
use my_rtsp_server.Poller.Adding.{update-write_at-interest}
use my_rtsp_server.Source
use my_rtsp_server.Source.{MediaSource}
use my_rtsp_server.Source.Creation.{
  FileSource, open_source, open_h264_source, open_aac_source, add_tasks, default_frame_num,
  h264_fps, aac_fps,
}
use my_rtsp_server.Source.Delivery
use my_rtsp_server.Scheduler.{EventScheduler, add_timer_event_run_every}
use my_rtsp_server.Scheduler.Construction
use my_rtsp_server.Scheduler.Startup.{
  standing, scheduler_with, create_new-created, standing-Reach, standing-interest,
}
use my_rtsp_server.Sockets.System.{Call, Kernel}
use my_rtsp_server.Sockets
use my_rtsp_server.Acceptor
use my_rtsp_server.Server.Accepting.{new_server, start}
use my_rtsp_server.Program.{
  Launch, Running, running, video, audio, with_sinks, serve, environment, launched, main,
}

-- The source of an opened file.
abbrev pub opened : ℕ → ℕ → List ℕ → (ℕ → AvFrame) → FileSource
opened fps fd file av_frames = record {
  fd = fd;
  file = file;
  fps = fps;
  source = add_tasks default_frame_num (Source.new av_frames);
}

open_source-opened :
    (fps fd : ℕ) (o : Option ℕ) (file : List ℕ) (av_frames : ℕ → AvFrame)
    → o ≡ some fd
    → 0 < fd
    → open_source fps o file av_frames ≡ some (opened fps fd file av_frames)
unfolding open_source
open_source-opened fps fd o file av_frames e valid =
    ap (λ x. open_source fps x file av_frames) e
    ∙ ap (λ b. assert b >> some (opened fps fd file av_frames)) (lt→ltb 0 fd valid)

-- The call that makes the listening socket.
abbrev pub listening_socket : Call
listening_socket = Call.socket 2 (1 + (0x800 + 0x80000)) 6

module _ (os : Kernel) (l : Launch) (event_fd timer_fd video_fd audio_fd : ℕ)
    (name video_file audio_file : List ℕ) (t : List Call) where
  unfoldable pub stands : EventScheduler
  stands =
      scheduler_with
        (standing event_fd timer_fd l.scheduler l.timers l.wake_event l.timer_event l.io_events)

  unfoldable pub serves : Running
  unfolding stands
  serves =
      (serve os l stands (opened h264_fps video_fd video_file l.video_frames)
        (opened aac_fps audio_fd audio_file l.audio_frames) t).0

  pub main-serves :
      l.event_fd ≡ some event_fd
      → l.timer_fd ≡ some timer_fd
      → l.video_fd ≡ some video_fd
      → l.audio_fd ≡ some audio_fd
      → 0 < video_fd
      → 0 < audio_fd
      → (main os l (name ∷ video_file ∷ audio_file ∷ []) t).0 ≡ running serves
  unfolding main launched environment serves
  main-serves a b c d v w =
      let fds : environment (
            Construction.create_new l.event_fd l.timer_fd l.scheduler l.timers l.wake_event
              l.timer_event l.io_events)
          ≡ some stands =
        ap
          (λ x. environment (
            Construction.create_new x l.timer_fd l.scheduler l.timers l.wake_event l.timer_event
              l.io_events))
          a
        ∙ ap
            (λ x. environment (
              Construction.create_new (some event_fd) x l.scheduler l.timers l.wake_event
                l.timer_event l.io_events))
            b
        ∙ ap environment (
            create_new-created event_fd timer_fd l.scheduler l.timers l.wake_event l.timer_event
              l.io_events) in
      let picture = open_source-opened h264_fps video_fd l.video_fd video_file l.video_frames c v in
      let sound = open_source-opened aac_fps audio_fd l.audio_fd audio_file l.audio_frames d w in
      ap
        (λ x.
          (launched os l x (open_h264_source l.video_fd video_file l.video_frames)
            (open_aac_source l.audio_fd audio_file l.audio_frames) t).0)
        fds
      ∙ ap
          (λ x.
            (launched os l (some stands) x (open_aac_source l.audio_fd audio_file l.audio_frames)
              t).0)
          picture
      ∙ ap
          (λ x.
            (launched os l (some stands) (some (opened h264_fps video_fd video_file l.video_frames))
              x t).0)
          sound

  module _ {interest : List Ctl → ℕ → Option ℕ} (epoll : IsEpoll interest) where
    pub serves-interest :
        (k : ℕ)
        → interest serves.scheduler.poller.ctls k ≡ (
            if os.answer t listening_socket == k
            then some epoll_in
            else if (event_fd == k) || (timer_fd == k)
            then some epoll_in
            else none)
    unfolding serves serve start Acceptor.listen Acceptor.new Acceptor.set_new_connection_callback
        Acceptor.accept_event new_server stands Sockets.create_tcp_sock enable epoll_events
        Poller.new
    serves-interest k =
        let s =
          standing event_fd timer_fd l.scheduler l.timers l.wake_event l.timer_event l.io_events in
        update-write_at-interest epoll l.accept_event k
          (Acceptor.accept_event (os.answer t listening_socket) l.acceptor) s
          (standing-Reach event_fd timer_fd l.scheduler l.timers l.wake_event l.timer_event
            l.io_events)
        ∙ ap (λ o. if os.answer t listening_socket == k then some epoll_in else o)
            (standing-interest epoll event_fd timer_fd l.scheduler l.timers l.wake_event
              l.timer_event k l.io_events)

  pub serves-timers :
      (find_timer serves.video_timer serves.scheduler.time_manager.timers
        ≡ some (Timer.new (some video) (l.video_now + 40) 40))
      × (find_timer serves.audio_timer serves.scheduler.time_manager.timers
          ≡ some (Timer.new (some audio) (l.audio_now + 23) 23))
  unfolding serves serve with_sinks Delivery.start add_timer_event_run_every Timer.add_timer
      insert_timer find_timer stands Timer.empty Timer.modify_timeout Timer.new
  serves-timers = (refl, refl)

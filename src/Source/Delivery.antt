-- ===== src/Source/Delivery.antt =====
-- include/net/rtpsink.h: `TimeoutCallback`, which hands a frame of the source to the sink, and
-- `Start`, `Stop` and the destructor, which set and remove the timer that calls it. `HandleFrame`
-- is the sink's own.
pub mod Frames
pub mod Pipeline
mod Tests
use my_rtsp_server.Prelude.{ℕ, Option, none, some, List, ◌>>=◌}
use my_rtsp_server.Rtp.{AvFrame}
use my_rtsp_server.Source.{MediaSource, get_frame, put_frame}
use my_rtsp_server.Scheduler.{EventScheduler, add_timer_event_run_every, remove_timer_event}

module _ {Sink : Type 0} (handle_frame : AvFrame → Sink → Option Sink) where
  -- From what `GetFrame` returned.
  unfoldable pub handle_front : Option ℕ → Sink → MediaSource → Option (Sink × MediaSource)
  handle_front none sink source = some (sink, source)
  handle_front (some p) sink source = do
    sink' ← handle_frame (source.av_frames p) sink
    some (sink', put_frame p source)

  unfoldable pub timeout_callback : Sink → MediaSource → Option (Sink × MediaSource)
  timeout_callback sink source = let front = get_frame source in handle_front front.0 sink front.1

-- `event` is the sink's timer event; the result has the id of the timer.
unfoldable pub start : ℕ → ℕ → ℕ → EventScheduler → ℕ × EventScheduler
start now event ms s = add_timer_event_run_every now (some event) ms s

unfoldable pub stop : ℕ → EventScheduler → EventScheduler
stop timer_id s = remove_timer_event timer_id s

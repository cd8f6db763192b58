-- ===== src/Source/Creation.antt =====
-- The constructors and destructors of src/net/h264media_source.cpp and
-- src/net/aac_media_source.cpp: the file is opened, and the pool gets a task for each frame. `open`
-- of the system is a parameter: what it returned, -1 as `none`.
use my_rtsp_server.Prelude.{ℕ, ◌+◌, Option, none, some, List, ltb, ◌>>◌, assert}
use my_rtsp_server.Rtp.{AvFrame}
use my_rtsp_server.Source.{MediaSource, new}
use my_rtsp_server.Sockets.System.{Call, Kernel, Sys, call}

pub record FileSource : Type 0 where
  pub fd : ℕ
  pub file : List ℕ
  pub fps : ℕ
  pub source : MediaSource

abbrev pub default_frame_num : ℕ
default_frame_num = 4

-- The loop over `AddTask`.
unfoldable pub add_tasks : ℕ → MediaSource → MediaSource
add_tasks n s = record s { tasks = s.tasks + n }

-- The two constructors, up to their frames per second. `none`: the assert.
unfoldable pub open_source : ℕ → Option ℕ → List ℕ → (ℕ → AvFrame) → Option FileSource
unfolding add_tasks new
open_source fps none file av_frames = none
open_source fps (some fd) file av_frames =
    assert (ltb 0 fd)
    >> some (record {
      fd = fd;
      file = file;
      fps = fps;
      source = add_tasks default_frame_num (new av_frames);
    })

abbrev pub h264_fps : ℕ
h264_fps = 25

abbrev pub aac_fps : ℕ
aac_fps = 43

abbrev pub open_h264_source : Option ℕ → List ℕ → (ℕ → AvFrame) → Option FileSource
open_h264_source fd file av_frames = open_source h264_fps fd file av_frames

abbrev pub open_aac_source : Option ℕ → List ℕ → (ℕ → AvFrame) → Option FileSource
open_aac_source fd file av_frames = open_source aac_fps fd file av_frames

abbrev pub destroy_h264 : Kernel → FileSource → Sys ℕ
destroy_h264 os s = call os (Call.close s.fd)

abbrev pub destroy_aac : Kernel → FileSource → Sys ℕ
destroy_aac os s = call os (Call.close s.fd)

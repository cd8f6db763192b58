-- ===== src/Source/Tests.antt =====
-- A source whose file has no start codes.
use my_rtsp_server.Prelude.{ℕ, ◌+◌, ◌-◌, ◌^◌, ◌≤◌, ◌≡◌, refl, some, [], ◌∷◌, length, arith}
use my_rtsp_server.Rtp.{AvFrame}
use my_rtsp_server.Source.{
  MediaSource, new, set_frame, get_frame_from_h264_file, cut_frame, matches, read_front,
  finish_frame, stay,
}
use my_rtsp_server.Source.Creation.{add_tasks, default_frame_num}
use my_rtsp_server.Source.Starving.{Served, start, reads, Served-starves}

abbrev unlike : ℕ → AvFrame
unlike p = record { block = 9 ∷ 9 ∷ 9 ∷ 9 ∷ []; start = 0; frame_size = 0 }

abbrev opened : MediaSource
opened = record { av_frames = unlike; input_que = 0 ∷ 1 ∷ 2 ∷ 3 ∷ []; output_que = []; tasks = 4 }

-- The first frame behind a read that failed.
abbrev left : MediaSource
left = record opened {
  av_frames = set_frame 0 (record (unlike 0) { frame_size = 2 ^ 32 - 1 }) unlike;
}

left-Served : Served left [] 1 1
unfolding new add_tasks read_front get_frame_from_h264_file cut_frame matches finish_frame
left-Served = reads {s = opened} {seek = stay} (some []) (start unlike) (omega arith) refl

Served-starves_example :
    (1 ≤ left.tasks)
    × ((left.tasks - 1) + length left.output_que + length {A = ℕ} [] + 1 ≡ default_frame_num)
Served-starves_example = Served-starves left-Served

-- ===== src/Source/Delivery/Tests.antt =====
-- A frame of two bytes between two start codes on its way into a packet.
use my_rtsp_server.Prelude.{
  ℕ, zero, suc, ◌<◌, ◌≡◌, refl, true, false, Option, some, List, [], ◌∷◌, ◌++◌, arith, replicate,
  Returns, drop,
}
use my_rtsp_server.Rtp.{AvFrame}
use my_rtsp_server.Rtp.H264.{handle_frame}
use my_rtsp_server.Rtp.H264.Fragments.{IsReady}
use my_rtsp_server.Rtp.H264.Sent.{sent_since}
use my_rtsp_server.Rtp.Tests.{video, video-IsReady}
use my_rtsp_server.Source.{
  MediaSource, new, any_start_code, matches, back, read_frame, read_front, finish_frame,
  get_frame_from_h264_file, cut_frame, find_next_start_code, scan_start_code, set_frame,
}
use my_rtsp_server.Source.Owned.{Reach, start, reads, owners, Reach-owners}
use my_rtsp_server.Source.Cut.{IsNext}
use my_rtsp_server.Source.Delivery.{timeout_callback}
use my_rtsp_server.Source.Delivery.Pipeline.{HoldsFrame, frame_packet, read_frame-timeout_callback}

abbrev bytes : List ℕ
bytes = 0 ∷ 0 ∷ 1 ∷ 0x65 ∷ 9 ∷ 0 ∷ 0 ∷ 1 ∷ 0x41 ∷ []

bytes-IsNext : IsNext 2 (drop 3 bytes)
unfolding matches
bytes-IsNext = record { here = refl; none_before = none_before }
  where
    none_before : (i : ℕ) → i < 2 → any_start_code (drop i (drop 3 bytes)) ≡ some false
    none_before zero h = refl
    none_before (suc zero) h = refl
    none_before (suc (suc i)) h = absurd (omega arith)

bytes-HoldsFrame : HoldsFrame 3 2 true bytes
unfolding matches
bytes-HoldsFrame = record {
  is_three = refl;
  skips = refl;
  begins = refl;
  next = bytes-IsNext;
  filled_in = omega arith;
  whole = omega arith;
  small = omega arith;
}

abbrev block : List ℕ
block = replicate 20 0

abbrev source : MediaSource
source = record {
  av_frames = λ p. record { block = block; start = 0; frame_size = 0 };
  input_que = 2 ∷ 3 ∷ [];
  output_que = [];
  tasks = 4;
}

read_frame-timeout_callback_example :
    Returns
      (λ r.
        (r.0 ≡ back 4)
        × Returns
            (λ t.
              (sent_since video.sink t.0.sink ≡ frame_packet 3 2 bytes video)
              × IsReady t.0
              × (t.1.input_que ≡ 3 ∷ 2 ∷ [])
              × (t.1.output_que ≡ []))
            (timeout_callback handle_frame video r.1))
      (read_frame (some bytes) source)
read_frame-timeout_callback_example =
    read_frame-timeout_callback 3 2 true bytes block bytes-HoldsFrame (omega arith) 2 (3 ∷ [])
      source video refl refl refl video-IsReady (omega arith)

-- A sink that counts.
abbrev count : AvFrame → ℕ → Option ℕ
count f n = some (suc n)

abbrev full : MediaSource
full = record source { input_que = 3 ∷ []; output_que = 0 ∷ 1 ∷ [] }

abbrev frames : ℕ → AvFrame
frames p = record { block = block; start = 0; frame_size = 0 }

abbrev one_read : MediaSource
one_read = record {
  av_frames =
      set_frame 0 (record { block = bytes ++ replicate 11 0; start = 3; frame_size = 2 }) frames;
  input_que = 1 ∷ 2 ∷ 3 ∷ [];
  output_que = 0 ∷ [];
  tasks = 0;
}

one_read-Reach : Reach one_read []
unfolding new read_front finish_frame get_frame_from_h264_file cut_frame find_next_start_code
    scan_start_code matches
one_read-Reach = reads (some bytes) (start frames) refl

Reach-owners_example : owners 0 one_read [] ≡ 1
Reach-owners_example = Reach-owners 0 one_read-Reach

-- ===== src/Session/Sdp/Tests.antt =====
-- The description of a session with one video track.
use my_rtsp_server.Prelude.{ℕ, ◌≡◌, refl, some, List, arith}
use my_rtsp_server.Prelude.Text.{codes}
use my_rtsp_server.Rtp.H264
use my_rtsp_server.Session.Tests.{live, packet, heap}
use my_rtsp_server.Session.Sdp.{full_text, generate_sdp_description}
use my_rtsp_server.Session.Sdp.Whole.{
  Sink, h264, get_media_description, get_attribute, generate_sdp_description_whole,
}

abbrev sinks : ℕ → Sink
sinks p = h264 (H264.new 25 packet 7)

abbrev address : List ℕ
address = codes "192.168.100.200"

abbrev text : List ℕ
text = full_text 5 address (get_media_description sinks) (get_attribute sinks) live

generate_sdp_description_whole_example :
    generate_sdp_description 5 address (get_media_description sinks) (get_attribute sinks) heap live
    ≡ some (text, record live { sdp = text })
generate_sdp_description_whole_example =
    generate_sdp_description_whole 5 address sinks heap live (omega arith) refl refl
      (λ h. (1, refl)) (λ h. cc)

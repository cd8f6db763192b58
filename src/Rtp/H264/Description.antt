-- ===== src/Rtp/H264/Description.antt =====
-- src/net/h264rtp_sink.cpp: the lines of a session's description that the sink gives.
use my_rtsp_server.Prelude.{ℕ, ◌++◌, List}
use my_rtsp_server.Prelude.Text.{codes, decimal, crlf}
use my_rtsp_server.Rtp.H264.{H264RtpSink}

unfoldable pub get_media_description : ℕ → H264RtpSink → List ℕ
get_media_description port h =
    codes "m=video " ++ decimal port ++ codes " RTP/AVP " ++ decimal h.sink.payload_type

unfoldable pub get_attribute : H264RtpSink → List ℕ
get_attribute h =
    codes "a=rtpmap:"
    ++ decimal h.sink.payload_type
    ++ codes " H264/"
    ++ decimal h.clock_rate
    ++ crlf
    ++ codes "a=framerate:"
    ++ decimal h.fps

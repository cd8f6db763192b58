-- ===== src/Session/Sdp/Whole.antt =====
-- The description of the program's own sinks fits its buffer. `sinks` says what a pointer to a sink
-- points to; the virtual functions of include/net/rtpsink.h are those of the sink's class.
use my_rtsp_server.Prelude.{
  ℕ, ◌-◌, ◌≤◌, ◌<◌, ◌≡◌, ap, ◌∙◌, false, some, List, [], arith, length, length-append, ◌==◌,
  Bool-cases, Option-cases, inl, inr, take, take_all,
}
use my_rtsp_server.Prelude.Text.{line, length-decimal, print_more}
use my_rtsp_server.Rtp.H264.{H264RtpSink}
use my_rtsp_server.Rtp.H264.Description as Video
use my_rtsp_server.Rtp.Aac.{AacRtpSink}
use my_rtsp_server.Rtp.Aac.Description as Audio
use my_rtsp_server.Rtp.Aac.Description.{
  four_digits, rate_index, config_str, atoi_from, aac_sample_rate,
}
use my_rtsp_server.Session.{
  Instances, MediaSession, Track, TrackId, track_id_none, track_id0, track_id1,
}
use my_rtsp_server.Session.Sdp.{
  sdp_size, track_number, header_text, track_text, section, full_text, HasSink,
  generate_sdp_description, generate_sdp_description_text,
}

pub data Sink : Type 0 where
  h264 : H264RtpSink → Sink
  aac : AacRtpSink → Sink

-- The virtual functions.
unfoldable pub class_media_description : ℕ → Sink → List ℕ
class_media_description port (h264 h) = Video.get_media_description port h
class_media_description port (aac a) = Audio.get_media_description port a

unfoldable pub class_attribute : Sink → List ℕ
class_attribute (h264 h) = Video.get_attribute h
class_attribute (aac a) = Audio.get_attribute a

abbrev pub get_media_description : (ℕ → Sink) → ℕ → ℕ → List ℕ
get_media_description sinks p port = class_media_description port (sinks p)

abbrev pub get_attribute : (ℕ → Sink) → ℕ → List ℕ
get_attribute sinks p = class_attribute (sinks p)

length-four_digits : (n : ℕ) → length (four_digits n) ≤ 20
unfolding four_digits
length-four_digits n = ground (arith, length-decimal n)

video_description_bound :
    (port : ℕ) (h : H264RtpSink) → length (Video.get_media_description port h) ≤ 60
unfolding Video.get_media_description
video_description_bound port h =
    simp length-append (omega (arith, length-decimal port, length-decimal h.sink.payload_type))

audio_description_bound :
    (port : ℕ) (a : AacRtpSink) → length (Audio.get_media_description port a) ≤ 60
unfolding Audio.get_media_description
audio_description_bound port a =
    simp length-append (omega (arith, length-decimal port, length-decimal a.sink.payload_type))

video_attribute_bound : (h : H264RtpSink) → length (Video.get_attribute h) ≤ 300
unfolding Video.get_attribute
video_attribute_bound h = simp length-append (
    omega (
      arith,
      length-decimal h.sink.payload_type,
      length-decimal h.clock_rate,
      length-decimal h.fps,
    ))

audio_attribute_bound : (a : AacRtpSink) → length (Audio.get_attribute a) ≤ 300
unfolding Audio.get_attribute
audio_attribute_bound a = elim (Bool-cases (rate_index a.sample_rate aac_sample_rate == 16)) [
  | inl e ↦ rw e (omega arith)
  | inr e ↦ rw e (
      simp length-append (
        omega (
          arith,
          length-decimal a.sample_rate,
          length-decimal a.channels,
          length-decimal a.sink.payload_type,
          length-four_digits
              (atoi_from 0 (config_str (rate_index a.sample_rate aac_sample_rate) a.channels)),
        )))
]

media_description_bound : (port : ℕ) (k : Sink) → length (class_media_description port k) ≤ 60
unfolding class_media_description
media_description_bound port (h264 h) = video_description_bound port h
media_description_bound port (aac a) = audio_description_bound port a

attribute_bound : (k : Sink) → length (class_attribute k) ≤ 300
unfolding class_attribute
attribute_bound (h264 h) = video_attribute_bound h
attribute_bound (aac a) = audio_attribute_bound a

track_number_bound : (id : TrackId) → length (track_number id) ≤ 2
track_number_bound track_id_none = omega arith
track_number_bound track_id0 = omega arith
track_number_bound track_id1 = omega arith

module _ (now : ℕ) (local_ip : List ℕ) (sinks : ℕ → Sink) where
  section_bound :
      (t : Track)
      → length (section now local_ip (get_media_description sinks) (get_attribute sinks) t) ≤ 500
  unfolding section track_text line
  section_bound t = elim (Bool-cases t.is_alive) [
    | inr e ↦ simp e (omega arith)
    | inl e ↦ elim (Option-cases t.rtp_sink) [
      | inl n ↦ simp (e, n) (omega arith)
      | inr (p, k) ↦
          simp (e, k, length-append)
            (omega (
              arith,
              media_description_bound 0 (sinks p),
              attribute_bound (sinks p),
              track_number_bound t.track_id,
            ))
    ]
  ]

  full_text_bound :
      (s : MediaSession)
      → length local_ip ≤ 15
      → length (full_text now local_ip (get_media_description sinks) (get_attribute sinks) s)
        < sdp_size
  unfolding full_text header_text line
  full_text_bound s h =
      simp length-append
        (omega (arith, length-decimal now, section_bound s.track0, section_bound s.track1))

  -- For the sinks of the program, the first answer of a session that is not multicast and whose
  -- live tracks have sinks is the whole description of those tracks, which fits the buffer of 2048
  -- bytes, and it is kept for the next. The condition: the local address has at most 15
  -- characters.
  pub generate_sdp_description_whole :
      (heap : Instances) (s : MediaSession)
      → length local_ip ≤ 15
      → s.sdp ≡ []
      → s.is_start_multicast ≡ false
      → HasSink now local_ip (get_media_description sinks) (get_attribute sinks) s.track0
      → HasSink now local_ip (get_media_description sinks) (get_attribute sinks) s.track1
      → let text = full_text now local_ip (get_media_description sinks) (get_attribute sinks) s in
        generate_sdp_description now local_ip
          (get_media_description sinks)
          (get_attribute sinks)
          heap
          s
        ≡ some (text, record s { sdp = text })
  unfolding print_more
  generate_sdp_description_whole heap s ip e m k l =
      let media = get_media_description sinks in
      let attribute = get_attribute sinks in
      let text = full_text now local_ip media attribute s in
      let whole : take (sdp_size - 1) text ≡ text =
        take_all (sdp_size - 1) text (omega (arith, full_text_bound s ip)) in
      (generate_sdp_description_text now local_ip media attribute heap s e m k l).0
      ∙ ap (λ t. some (t, record s { sdp = t })) whole

-- ===== src/Session/Sdp.antt =====
-- `GenerateSdpDescription`: the text that DESCRIBE answers with.
-- The clock, the local address, and the sinks' virtual functions are parameters.
pub mod Whole
mod Tests
use my_rtsp_server.Prelude.{
  ℕ, ◌≡◌, sym, ap, Bool, true, false, Option, none, some, List, [], ◌∷◌, ◌++◌, append_assoc,
  append-nil, arith, Bool-cases, inl, inr, ◌<◌, if◌then◌else◌, ◌>>=◌, length,
}
use my_rtsp_server.Prelude.Text.{
  codes, crlf, line, decimal, print_more, print_more-print_more, length-print_more,
}
use my_rtsp_server.Session.{
  Instances, MediaSession, Track, TrackId, track_id_none, track_id0, track_id1,
  get_multicast_dest_rtp_port,
}

abbrev pub sdp_size : ℕ
sdp_size = 2048

abbrev track_number : TrackId → List ℕ
track_number track_id_none = codes "-1"
track_number track_id0 = codes "0"
track_number track_id1 = codes "1"

module _ (now : ℕ) (local_ip : List ℕ) (media_description : ℕ → ℕ → List ℕ)
    (attribute : ℕ → List ℕ) where
  header_text : List ℕ
  header_text =
      line "v=0"
      ++ codes "o=- 9"
      ++ decimal now
      ++ codes " 1 IN IP4 "
      ++ local_ip
      ++ crlf
      ++ line "t=0 0"
      ++ line "a=control:*"
      ++ line "a=type:broadcast"

  -- One round of the loop over the tracks, at a live track; `none` is a null sink, or a fault of
  -- the look-up of the port.
  print_track : Instances → TrackId → Track → MediaSession → List ℕ → Option (List ℕ)
  print_track heap i t s buf = do
    port ← (if s.is_start_multicast then get_multicast_dest_rtp_port heap i s else some 0)
    sink ← t.rtp_sink
    let buf1 = print_more sdp_size buf (media_description sink port ++ crlf)
    let buf2 = print_more sdp_size buf1 (
        if s.is_start_multicast
        then codes "c=IN IP4 " ++ s.multicast_addr ++ line "/255"
        else line "c=IN IP4 0.0.0.0")
    let buf3 = print_more sdp_size buf2 (attribute sink ++ crlf)
    some (print_more sdp_size buf3 (codes "a=control:track" ++ track_number t.track_id ++ crlf))

  print_if_alive : Instances → TrackId → Track → MediaSession → List ℕ → Option (List ℕ)
  print_if_alive heap i t s buf = if t.is_alive then print_track heap i t s buf else some buf

  is_empty : List ℕ → Bool
  is_empty [] = true
  is_empty (x ∷ xs) = false

  pub generate_sdp_description : Instances → MediaSession → Option (List ℕ × MediaSession)
  unfolding is_empty
  generate_sdp_description heap s =
      if is_empty s.sdp
      then (do
        let buf0 = print_more sdp_size [] header_text
        let buf1 =
            (if s.is_start_multicast
              then print_more sdp_size buf0 (line "a=rtcp-unicast: reflection")
              else buf0)
        buf2 ← print_if_alive heap track_id0 s.track0 s buf1
        buf3 ← print_if_alive heap track_id1 s.track1 s buf2
        some (buf3, record s { sdp = buf3 }))
      else some (s.sdp, s)

  -- The section of a track in full, for a session that is not multicast.
  track_text : ℕ → Track → List ℕ
  track_text sink t =
      media_description sink 0
      ++ crlf
      ++ (line "c=IN IP4 0.0.0.0"
          ++ (attribute sink
              ++ crlf
              ++ (codes "a=control:track" ++ track_number t.track_id ++ crlf)))

  -- What the description would be in a buffer without an end.
  pub section : Track → List ℕ
  section t =
      if t.is_alive then elim t.rtp_sink [ none ↦ [] | some sink ↦ track_text sink t ] else []

  pub full_text : MediaSession → List ℕ
  full_text s = header_text ++ section s.track0 ++ section s.track1

  -- A track that is alive has a sink.
  abbrev pub HasSink : Track → Type 0
  HasSink t = t.is_alive ≡ true → (sink : ℕ) × (t.rtp_sink ≡ some sink)

  abbrev pub cut : List ℕ → List ℕ
  cut text = print_more sdp_size [] text

  print_track_text :
      (heap : Instances) (i : TrackId) (t : Track) (s : MediaSession) (text : List ℕ) (sink : ℕ)
      → s.is_start_multicast ≡ false
      → t.rtp_sink ≡ some sink
      → print_track heap i t s (cut text) ≡ some (cut (text ++ track_text sink t))
  unfolding print_track track_text
  print_track_text heap i t s text sink m k = rw (m, k) (simp (print_more-print_more, append_assoc))

  print_if_alive_text :
      (heap : Instances) (i : TrackId) (t : Track) (s : MediaSession) (text : List ℕ)
      → s.is_start_multicast ≡ false
      → HasSink t
      → print_if_alive heap i t s (cut text) ≡ some (cut (text ++ section t))
  unfolding print_if_alive section
  print_if_alive_text heap i t s text m k = elim (Bool-cases t.is_alive) [
    | inl a ↦ let (sink, e) = k a in simp (a, e) (print_track_text heap i t s text sink m e)
    | inr a ↦ simp a (ap (λ x. some (cut x)) (sym (append-nil text)))
  ]

  -- The first answer of a session that is not multicast and whose live tracks have sinks is the
  -- description of those tracks, cut off behind 2047 bytes, and it is kept for the next.
  pub generate_sdp_description_text :
      (heap : Instances) (s : MediaSession)
      → s.sdp ≡ []
      → s.is_start_multicast ≡ false
      → HasSink s.track0
      → HasSink s.track1
      → (generate_sdp_description heap s
          ≡ some (cut (full_text s), record s { sdp = cut (full_text s) }))
        × (length (cut (full_text s)) < sdp_size)
  unfolding generate_sdp_description full_text
  generate_sdp_description_text heap s e m k l = (
    simp (
      e,
      m,
      print_if_alive_text heap track_id0 s.track0 s header_text m k,
      print_if_alive_text heap track_id1 s.track1 s (header_text ++ section s.track0) m l,
    ),
    omega (arith, length-print_more sdp_size [] (full_text s)),
  )

-- ===== src/Rtsp/Request.antt =====
-- The parser of src/net/rtsp_connection.cpp, from the headers on. `none` is a fault of the request
-- line, or an assert of the buffer. A refusal may leave some fields set.
pub mod Headers
use my_rtsp_server.Prelude.{
  ℕ, ◌+◌, Bool, true, false, not, Option, none, some, List, ◌==◌, ltb, if◌then◌else◌, ◌>>=◌, ◌>>◌,
  assert, length, take, drop,
}
use Prim.Native.String.{String}
use my_rtsp_server.Prelude.Text.{codes, bytes_eq}
use my_rtsp_server.Buffer
use my_rtsp_server.Buffer.Search.{find_crlf, find_last_crlf}
use my_rtsp_server.Session.{track_id0, track_id1}
use my_rtsp_server.Rtsp.{
  RtspConnection, Method, options, describe, setup, play, teardown, get_parameter, rtcp, pause,
  none_method,
}
use my_rtsp_server.Rtsp.RequestLine.{parse_request1}
use my_rtsp_server.Rtsp.Scan.{
  c_str, scan_set, scan_word, scan_byte, scan_uint, starts_with, find_from,
}

-- `"%*[^:]: %u"` from the name of a header on.
pub scan_header_number : String → List ℕ → Option ℕ
scan_header_number name message = do
  text ← find_from (codes name) message
  (_, rest) ← scan_set (λ c. not (c == b':')) (c_str text)
  digits ← scan_byte b':' rest
  (value, _) ← scan_uint 32 digits
  some value

store_cseq : Option ℕ → RtspConnection → Bool × RtspConnection
store_cseq none c = (false, c)
store_cseq (some n) c = (true, record c { cseq = n })

pub parse_cseq : List ℕ → RtspConnection → Bool × RtspConnection
unfolding scan_header_number store_cseq
parse_cseq message c = store_cseq (scan_header_number "CSeq" message) c

pub parse_accept : List ℕ → Bool
parse_accept message = elim (find_from (codes "Accept") message) [
  | none ↦ false
  | some _ ↦ elim (find_from (codes "sdp") message) [ none ↦ false | some _ ↦ true ]
]

-- `"%*[^;];%*[^=]=%u-%u"`, in words of w bits: what is stored of the two numbers.
pub data Pair : Type 0 where
  neither : Pair
  only : ℕ → Pair
  both : ℕ → ℕ → Pair

scan_pair : ℕ → List ℕ → Pair
scan_pair w text =
    elim (do
      (_, rest) ← scan_set (λ c. not (c == b';')) (c_str text)
      rest' ← scan_byte b';' rest
      (_, rest'') ← scan_set (λ c. not (c == b'=')) rest'
      digits ← scan_byte b'=' rest''
      scan_uint w digits) [
        | none ↦ neither
        | some (a, rest) ↦ elim (do digits ← scan_byte b'-' rest; scan_uint w digits) [
          | none ↦ only a
          | some (b, _) ↦ both a b
        ]
      ]

parse_tcp : List ℕ → RtspConnection → Bool × RtspConnection
unfolding scan_pair
parse_tcp text c =
    let c1 = record c { is_rtp_over_tcp = true } in
    elim (scan_pair 8 text) [
      | neither ↦ (false, c1)
      | only a ↦ (false, record c1 { rtp_channel = a })
      | both a b ↦ (true, record c1 { rtp_channel = a })
    ]

parse_unicast : List ℕ → RtspConnection → Bool × RtspConnection
unfolding scan_pair
parse_unicast text c = elim (scan_pair 16 text) [
  | neither ↦ (false, c)
  | only a ↦ (false, record c { peer_rtp_port = a })
  | both a b ↦ (true, record c { peer_rtp_port = a; peer_rtcp_port = b })
]

pub parse_transport : List ℕ → RtspConnection → Bool × RtspConnection
unfolding parse_tcp parse_unicast
parse_transport message c = elim (find_from (codes "Transport") message) [
  | none ↦ (false, c)
  | some _ ↦ elim (find_from (codes "RTP/AVP/TCP") message) [
    | some text ↦ parse_tcp text c
    | none ↦ elim (find_from (codes "RTP/AVP") message) [
      | none ↦ (false, c)
      | some text ↦ elim (find_from (codes "unicast") text) [
        | some _ ↦ parse_unicast text c
        | none ↦ elim (find_from (codes "multicast") text) [
          | none ↦ (false, c)
          | some _ ↦ (true, c)
        ]
      ]
    ]
  ]
]

pub parse_media_track : RtspConnection → Bool × RtspConnection
parse_media_track c = elim (find_from (codes "track0") c.url) [
  | some _ ↦ (true, record c { track_id = track_id0 })
  | none ↦ elim (find_from (codes "track1") c.url) [
    | some _ ↦ (true, record c { track_id = track_id1 })
    | none ↦ (false, c)
  ]
]

-- The number is read and not used.
pub parse_session_id : List ℕ → Bool
unfolding scan_header_number
parse_session_id message = elim (scan_header_number "Session" message) [
  | none ↦ false
  | some _ ↦ true
]

parse_setup : List ℕ → RtspConnection → Bool × RtspConnection
unfolding parse_transport parse_media_track
parse_setup message c =
    let (done, c') = parse_transport message c in if done then parse_media_track c' else (false, c')

dispatch_headers : Method → List ℕ → RtspConnection → Bool × RtspConnection
unfolding parse_accept parse_setup parse_session_id
dispatch_headers options message c = (true, c)
dispatch_headers describe message c = (parse_accept message, c)
dispatch_headers setup message c = parse_setup message c
dispatch_headers play message c = (parse_session_id message, c)
dispatch_headers teardown message c = (true, c)
dispatch_headers get_parameter message c = (true, c)
dispatch_headers pause message c = (true, c)
dispatch_headers rtcp message c = (false, c)
dispatch_headers none_method message c = (false, c)

pub parse_request2 : List ℕ → RtspConnection → Bool × RtspConnection
unfolding parse_cseq dispatch_headers
parse_request2 message c =
    let (done, c') = parse_cseq message c in
    if done then dispatch_headers c'.method message c' else (false, c')

refuse : RtspConnection → Option (Bool × RtspConnection)
refuse c = some (false, record c { input_buffer = Buffer.retrieve_all c.input_buffer })

parse_headers : RtspConnection → Option (Bool × RtspConnection)
unfolding refuse parse_request2
parse_headers c = elim (find_last_crlf c.input_buffer) [
  | none ↦ refuse c
  | some last ↦
      let (done, c') = parse_request2 (take last (Buffer.peek c.input_buffer)) c in
      if done
      then (do
        b ← Buffer.retrieve_until (last + 2) c'.input_buffer
        some (true, record c' { input_buffer = b }))
      else refuse c'
]

pub parse_request : RtspConnection → Option (Bool × RtspConnection)
unfolding refuse parse_request1 parse_headers
parse_request c = elim (find_crlf c.input_buffer) [
  | none ↦ refuse c
  | some crlf ↦ do
    (done, c') ← parse_request1 (take crlf (Buffer.peek c.input_buffer)) c
    (if done
        then (do
          b ← Buffer.retrieve_until (crlf + 2) c'.input_buffer
          parse_headers (record c' { input_buffer = b }))
        else refuse c')
]

-- ===== src/Rtsp/RequestLine.antt =====
-- The request line: ParseRequest1 of src/net/rtsp_connection.cpp. `none` is a fault: a text that
-- `sscanf` writes past the end of its array. A refusal may leave the method set.
pub mod Urls
use my_rtsp_server.Prelude.{
  ℕ, Bool, true, false, not, Option, none, some, List, ◌==◌, ltb, if◌then◌else◌, ◌>>=◌, ◌>>◌,
  assert, length, drop,
}
use my_rtsp_server.Prelude.Text.{codes, bytes_eq}
use my_rtsp_server.Rtsp.{
  RtspConnection, Method, options, describe, setup, play, teardown, get_parameter, rtcp, pause,
  none_method,
}
use my_rtsp_server.Rtsp.Scan.{c_str, scan_set, scan_word, scan_byte, scan_uint, starts_with}

-- The array of `n` bytes holds the text and its NUL.
abbrev fits : ℕ → List ℕ → Option (Unit {0})
fits n text = assert (ltb (length text) n)

abbrev pub method_of : List ℕ → Method
method_of m =
    if bytes_eq m (codes "OPTIONS")
    then options
    else if bytes_eq m (codes "DESCRIBE")
    then describe
    else if bytes_eq m (codes "SETUP")
    then setup
    else if bytes_eq m (codes "PLAY")
    then play
    else if bytes_eq m (codes "TEARDOWN")
    then teardown
    else if bytes_eq m (codes "GET_PARAMETER")
    then get_parameter
    else if bytes_eq m (codes "PAUSE")
    then pause
    else none_method

unfoldable pub is_none_method : Method → Bool
is_none_method options = false
is_none_method describe = false
is_none_method setup = false
is_none_method play = false
is_none_method teardown = false
is_none_method get_parameter = false
is_none_method rtcp = false
is_none_method pause = false
is_none_method none_method = true

pub record RequestLine : Type 0 where
  pub verb : List ℕ
  pub target : List ℕ
  pub version : List ℕ

-- `sscanf(message, "%s %s %s", method, url, version) == 3`: from what each word was read as.
line_version : List ℕ → List ℕ → Option (List ℕ × List ℕ) → Option (Option RequestLine)
line_version verb target none = some none
line_version verb target (some (version, rest)) =
    fits 64 version >> some (some (record { verb = verb; target = target; version = version }))

line_target : List ℕ → Option (List ℕ × List ℕ) → Option (Option RequestLine)
unfolding line_version
line_target verb none = some none
line_target verb (some (target, rest)) =
    fits 512 target >> line_version verb target (scan_word rest)

line_verb : Option (List ℕ × List ℕ) → Option (Option RequestLine)
unfolding line_target
line_verb none = some none
line_verb (some (verb, rest)) = fits 64 verb >> line_target verb (scan_word rest)

pub scan_request_line : List ℕ → Option (Option RequestLine)
unfolding line_verb
scan_request_line message = line_verb (scan_word (c_str message))

-- The suffix that was read last.
host_suffix : Option (List ℕ × List ℕ) → Option (Option (List ℕ))
host_suffix none = some none
host_suffix (some (suffix, rest)) = fits 64 suffix >> some (some suffix)

-- `":%hu/%s"`.
scan_port_path : List ℕ → Option (List ℕ × List ℕ)
scan_port_path text = do
  digits ← scan_byte b':' text
  (port, rest) ← scan_uint 16 digits
  path ← scan_byte b'/' rest
  scan_word path

-- `sscanf(text, "%[^:]:%hu/%s", ip, &port, suffix) == 3`: the suffix.
host_port : Option (List ℕ × List ℕ) → Option (Option (List ℕ))
unfolding scan_port_path host_suffix
host_port none = some none
host_port (some (ip, rest)) = fits 64 ip >> host_suffix (scan_port_path rest)

scan_host_port : List ℕ → Option (Option (List ℕ))
unfolding host_port
scan_host_port text = host_port (scan_set (λ c. not (c == b':')) text)

-- `sscanf(text, "%[^/]/%s", ip, suffix) == 2`: the suffix.
host_only : Option (List ℕ × List ℕ) → Option (Option (List ℕ))
unfolding host_suffix
host_only none = some none
host_only (some (ip, rest)) =
    fits 64 ip >> host_suffix (do path ← scan_byte b'/' rest; scan_word path)

scan_host : List ℕ → Option (Option (List ℕ))
unfolding host_only
scan_host text = host_only (scan_set (λ c. not (c == b'/')) text)

scan_suffix : List ℕ → Option (Option (List ℕ))
unfolding scan_host_port scan_host
scan_suffix text = do
  found ← scan_host_port text
  elim found [ some suffix ↦ some (some suffix) | none ↦ scan_host text ]

-- The URL and the suffix, where one was found.
take_url : List ℕ → Option (List ℕ) → RtspConnection → Bool × RtspConnection
take_url target none c = (false, c)
take_url target (some suffix) c = (true, record c { url = target; suffix = suffix })

take_line : Option RequestLine → RtspConnection → Option (Bool × RtspConnection)
unfolding is_none_method scan_suffix take_url
take_line none c = some (false, c)
take_line (some l) c =
    let c1 = record c { method = method_of l.verb } in
    if is_none_method c1.method
    then some (false, c1)
    else if not (starts_with (codes "rtsp://") l.target)
    then some (false, c1)
    else (do suffix ← scan_suffix (drop 7 l.target); some (take_url l.target suffix c1))

unfoldable pub parse_request1 : List ℕ → RtspConnection → Option (Bool × RtspConnection)
unfolding scan_request_line take_line
parse_request1 message c = do found ← scan_request_line message; take_line found c

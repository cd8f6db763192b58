-- ===== src/Rtsp/RequestLine/Urls.antt =====
-- What the parser takes from a request line that names a track by its URL.
use my_rtsp_server.Prelude.{
  ℕ, ◌+◌, ◌≤◌, ◌<◌, ◌≡◌, refl, sym, ap, ◌∙◌, Bool, true, false, not, some, List, [], ◌∷◌, ◌++◌,
  ◌==◌, ◌>>=◌, ◌>>◌, assert, lt→ltb, length, length-append, append-nil, arith,
}
use my_rtsp_server.Prelude.Text.{codes, decimal, length-decimal}
use my_rtsp_server.Rtsp.{RtspConnection}
use my_rtsp_server.Rtsp.Scan.{c_str, is_digit, scan_word, scan_byte, starts_with}
use my_rtsp_server.Rtsp.Scan.Spans.{
  all, is_plain, all-append, all-imp, scan_set-all, scan_word-plain, scan_word-plain_end,
  scan_word-space, c_str-plain,
}
use my_rtsp_server.Rtsp.Scan.Digits.{all_digits-decimal, scan_uint-digits}
use my_rtsp_server.Rtsp.RequestLine.{
  RequestLine, method_of, is_none_method, scan_request_line, scan_host_port, line_verb, line_target,
  line_version, host_port, host_suffix, scan_port_path, take_line, take_url, scan_suffix,
  parse_request1,
}

-- A word of a request line, for an array of `n` bytes.
abbrev pub IsWord : ℕ → List ℕ → Type 0
IsWord n l = (1 ≤ length l) × (length l < n) × (all is_plain l ≡ true)

abbrev pub words : List ℕ → List ℕ → List ℕ → List ℕ
words verb target version = verb ++ (b' ' ∷ (target ++ (b' ' ∷ version)))

pub c_str-word : (l : List ℕ) → all is_plain l ≡ true → c_str l ≡ l
c_str-word l h = ap c_str (sym (append-nil l)) ∙ c_str-plain l [] h ∙ append-nil l

c_str-words :
    (verb target version : List ℕ)
    → all is_plain verb ≡ true
    → all is_plain target ≡ true
    → all is_plain version ≡ true
    → c_str (words verb target version) ≡ words verb target version
c_str-words verb target version v t u =
    c_str-plain verb (b' ' ∷ (target ++ (b' ' ∷ version))) v
    ∙ ap (λ l. verb ++ (b' ' ∷ l))
        (c_str-plain target (b' ' ∷ version) t
          ∙ ap (λ l. target ++ (b' ' ∷ l)) (c_str-word version u))

pub scan_request_line-words :
    (verb target version : List ℕ)
    → IsWord 64 verb
    → IsWord 512 target
    → IsWord 64 version
    → scan_request_line (words verb target version)
      ≡ some (some (record { verb = verb; target = target; version = version }))
unfolding scan_request_line line_verb line_target line_version
scan_request_line-words verb target version v t u =
    let line : RequestLine = record { verb = verb; target = target; version = version } in
    let ended : line_version verb target (scan_word (b' ' ∷ version)) ≡ some (some line) =
      ap (line_version verb target) (scan_word-space version ∙ scan_word-plain_end version u.0 u.2)
      ∙ ap (λ b. assert b >> some (some line)) (lt→ltb (length version) 64 u.1) in
    let aimed : line_target verb (scan_word (b' ' ∷ (target ++ (b' ' ∷ version))))
        ≡ some (some line) =
      ap (line_target verb)
        (scan_word-space (target ++ (b' ' ∷ version)) ∙ scan_word-plain target version t.0 t.2)
      ∙ ap (λ b. assert b >> line_version verb target (scan_word (b' ' ∷ version)))
          (lt→ltb (length target) 512 t.1)
      ∙ ended in
    ap line_verb (
      ap scan_word (c_str-words verb target version v.2 t.2 u.2)
      ∙ scan_word-plain verb (target ++ (b' ' ∷ version)) v.0 v.2)
    ∙ ap (λ b. assert b >> line_target verb (scan_word (b' ' ∷ (target ++ (b' ' ∷ version)))))
        (lt→ltb (length verb) 64 v.1)
    ∙ aimed

plain_digit : (c : ℕ) → is_digit c ≡ true → is_plain c ≡ true
plain_digit c h = ground arith

-- An address: a word with no colon.
abbrev pub no_colon : ℕ → Bool
no_colon c = not (c == b':')

abbrev pub host_path : List ℕ → ℕ → List ℕ → List ℕ
host_path ip port path = ip ++ (b':' ∷ (decimal port ++ (b'/' ∷ path)))

abbrev pub url_of : List ℕ → ℕ → List ℕ → List ℕ
url_of ip port path = codes "rtsp://" ++ host_path ip port path

scan_port_path-path :
    (port : ℕ) (path : List ℕ)
    → IsWord 64 path
    → scan_port_path (b':' ∷ (decimal port ++ (b'/' ∷ path))) ≡ some (path, [])
unfolding scan_port_path scan_byte
scan_port_path-path port path p =
    ap (λ o. do (v, rest') ← o; path' ← scan_byte b'/' rest'; scan_word path')
      (scan_uint-digits 16 port path b'/' refl)
    ∙ scan_word-plain_end path p.0 p.2

scan_host_port-path :
    (ip : List ℕ) (port : ℕ) (path : List ℕ)
    → IsWord 64 ip
    → all no_colon ip ≡ true
    → IsWord 64 path
    → scan_host_port (host_path ip port path) ≡ some (some path)
unfolding scan_host_port host_port host_suffix
scan_host_port-path ip port path i n p =
    let rest = b':' ∷ (decimal port ++ (b'/' ∷ path)) in
    ap host_port (scan_set-all no_colon ip (decimal port ++ (b'/' ∷ path)) b':' i.0 n refl)
    ∙ ap (λ b. assert b >> host_suffix (scan_port_path rest)) (lt→ltb (length ip) 64 i.1)
    ∙ ap host_suffix (scan_port_path-path port path p)
    ∙ ap (λ b. assert b >> some (some path)) (lt→ltb (length path) 64 p.1)

scan_suffix-path :
    (ip : List ℕ) (port : ℕ) (path : List ℕ)
    → IsWord 64 ip
    → all no_colon ip ≡ true
    → IsWord 64 path
    → scan_suffix (host_path ip port path) ≡ some (some path)
unfolding scan_suffix
scan_suffix-path ip port path i n p = rw (scan_host_port-path ip port path i n p) refl

is_plain-url_of :
    (ip : List ℕ) (port : ℕ) (path : List ℕ)
    → all is_plain ip ≡ true
    → all is_plain path ≡ true
    → all is_plain (url_of ip port path) ≡ true
is_plain-url_of ip port path i p =
    let digits : all is_plain (decimal port) ≡ true =
      all-imp is_digit is_plain plain_digit (decimal port) (all_digits-decimal port) in
    all-append is_plain (codes "rtsp://") (host_path ip port path) refl (
      all-append is_plain ip (b':' ∷ (decimal port ++ (b'/' ∷ path))) i
        (all-append is_plain (decimal port) (b'/' ∷ path) digits p))

pub length-url_of :
    (ip : List ℕ) (port : ℕ) (path : List ℕ)
    → length (url_of ip port path) ≤ length ip + length path + 29
length-url_of ip port path = simp length-append (omega (arith, length-decimal port))

-- The request line of a URL: the method and the path.
pub parse_request1-url_of :
    (verb version ip path : List ℕ) (port : ℕ) (c : RtspConnection)
    → IsWord 64 verb
    → is_none_method (method_of verb) ≡ false
    → IsWord 64 version
    → IsWord 64 ip
    → all no_colon ip ≡ true
    → IsWord 64 path
    → parse_request1 (words verb (url_of ip port path) version) c
      ≡ some (true, record c { method = method_of verb; url = url_of ip port path; suffix = path })
unfolding parse_request1 take_line take_url starts_with
parse_request1-url_of verb version ip path port c v known u i n p =
    let url = url_of ip port path in
    let target : IsWord 512 url = (
      omega arith,
      omega (arith, length-url_of ip port path),
      is_plain-url_of ip port path i.2 p.2,
    ) in
    ap (λ o. do found ← o; take_line found c) (scan_request_line-words verb url version v target u)
    ∙ rw known (
        ap (λ o. do suffix ← o; some (take_url url suffix (record c { method = method_of verb })))
          (scan_suffix-path ip port path i n p))

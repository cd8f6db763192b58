-- ===== src/Server/Url.antt =====
-- `GetUrl` of src/net/rtsp_server.cpp, and what the parser makes of the URL.
use mathlib.Core.Option
use my_rtsp_server.Prelude.{
  ℕ, ◌≡◌, sym, subst, ap, ◌∙◌, true, false, Option, some, List, [], ◌++◌, take_all, append_assoc,
  arith,
}
use my_rtsp_server.Prelude.Text.{codes, decimal, print_more}
use my_rtsp_server.Session.{MediaSession}
use my_rtsp_server.Sockets.System.{Call, Kernel, Sys, pure, ◌>>=◌}
use my_rtsp_server.Sockets.{get_local_ip}
use my_rtsp_server.Rtsp.{RtspConnection}
use my_rtsp_server.Rtsp.Scan.{c_str}
use my_rtsp_server.Rtsp.Scan.Spans.{all}
use my_rtsp_server.Rtsp.RequestLine.{method_of, is_none_method, parse_request1}
use my_rtsp_server.Rtsp.RequestLine.Urls.{
  IsWord, words, no_colon, url_of, length-url_of, c_str-word, parse_request1-url_of,
}

-- `snprintf(url, sizeof(url), "rtsp://%s:%d/%s", ...)`.
unfoldable pub print_url : ℕ → List ℕ → List ℕ → List ℕ
unfolding print_more
print_url port name ip =
    print_more 200 []
      (codes "rtsp://" ++ (c_str ip ++ (codes ":" ++ (decimal port ++ (codes "/" ++ c_str name)))))

unfoldable pub get_url : Kernel → ℕ → MediaSession → Sys (Option (List ℕ))
unfolding print_url get_local_ip
get_url os port s = do ip ← get_local_ip os; pure (Option.map (print_url port s.session_name) ip)

print_url_lem :
    (port : ℕ) (name ip : List ℕ)
    → IsWord 64 ip
    → IsWord 64 name
    → print_url port name ip ≡ url_of ip port name
unfolding print_url print_more
print_url_lem port name ip i n =
    rw (c_str-word ip i.2, c_str-word name n.2)
      (take_all 199 (url_of ip port name) (omega (arith, length-url_of ip port name)))

-- A request line with the URL that the server tells for a session, and anything appended to it, is
-- parsed: the connection gets the method, the URL, and as its suffix the session's name with what
-- was appended. The conditions: the method is one of those known; it, the version, the local
-- address, and the name with and without what is appended are words of 1 to 63 bytes without
-- spaces and NULs; and the address has no colon.
pub get_url-parse_request1 :
    (os : Kernel) (t : List Call) (ip : List ℕ) (port : ℕ) (s : MediaSession)
    (verb extra version : List ℕ) (c : RtspConnection)
    → (get_local_ip os t).0 ≡ some ip
    → IsWord 64 ip
    → all no_colon ip ≡ true
    → IsWord 64 s.session_name
    → IsWord 64 (s.session_name ++ extra)
    → IsWord 64 verb
    → is_none_method (method_of verb) ≡ false
    → IsWord 64 version
    → (url : List ℕ) × ((get_url os port s t).0 ≡ some url)
      × (parse_request1 (words verb (url ++ extra) version) c
          ≡ some (
            true,
            record c {
              method = method_of verb;
              url = url ++ extra;
              suffix = s.session_name ++ extra;
            },
          ))
unfolding get_url
get_url-parse_request1 os t ip port s verb extra version c found i colon n p v known u =
    let name = s.session_name in
    let url = url_of ip port name in
    let longer : url ++ extra ≡ url_of ip port (name ++ extra) = simp append_assoc in
    (
      url,
      ap (Option.map (print_url port name)) found ∙ ap some (print_url_lem port name ip i n),
      subst
          (λ u'.
            parse_request1 (words verb u' version) c
            ≡ some (true, record c { method = method_of verb; url = u'; suffix = name ++ extra }))
          (sym longer)
          (parse_request1-url_of verb version ip (name ++ extra) port c v known u i colon p),
    )

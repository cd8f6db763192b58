-- ===== src/Rtsp/Request/Headers.antt =====
-- The sequence number of a request, as `ParseCSeq` reads it.
use mathlib.Core.Option
use my_rtsp_server.Prelude.{
  ℕ, ◌^◌, ◌<◌, ◌≡◌, refl, ap, ◌∙◌, true, not, Option, some, List, ◌∷◌, ◌++◌, ◌==◌, ◌>>=◌, drop,
}
use my_rtsp_server.Prelude.Text.{codes, decimal}
use my_rtsp_server.Rtsp.{RtspConnection}
use my_rtsp_server.Rtsp.Scan.{
  c_str, span, nonempty, scan_set, scan_byte, scan_uint, find, find_from,
}
use my_rtsp_server.Rtsp.Scan.Digits.{all_digits-decimal, c_str-all_digits, scan_uint-decimal}
use my_rtsp_server.Rtsp.Request.{scan_header_number, store_cseq, parse_cseq}

-- The header's line, and what follows it.
abbrev pub cseq_line : ℕ → List ℕ → List ℕ
cseq_line n rest = codes "CSeq: " ++ decimal n ++ (13 ∷ 10 ∷ rest)

scan_name :
    (digits : List ℕ)
    → scan_set (λ c. not (c == b':')) (codes "CSeq: " ++ digits)
      ≡ some (codes "CSeq", codes ": " ++ digits)
unfolding scan_set span nonempty
scan_name digits = refl

cseq_c_str : (n : ℕ) (rest : List ℕ) → c_str (cseq_line n rest) ≡ cseq_line n (c_str rest)
cseq_c_str n rest =
    ap (λ l. codes "CSeq: " ++ l)
      (c_str-all_digits (decimal n) (13 ∷ 10 ∷ rest) (all_digits-decimal n))

-- The number behind the colon.
abbrev number_of : List ℕ → Option ℕ
number_of text = do
  (_, rest) ← scan_set (λ c. not (c == b':')) text
  digits ← scan_byte b':' rest
  (value, _) ← scan_uint 32 digits
  some value

number_of-cseq_line : (n : ℕ) (rest : List ℕ) → n < 2 ^ 32 → number_of (cseq_line n rest) ≡ some n
unfolding scan_byte
number_of-cseq_line n rest small =
    let tail = decimal n ++ (13 ∷ 10 ∷ rest) in
    let named : number_of (cseq_line n rest)
        ≡ (do (value, _) ← scan_uint 32 (b' ' ∷ tail); some value) =
      ap
        (λ o. do
          (_, rest') ← o
          digits ← scan_byte b':' rest'
          (value, _) ← scan_uint 32 digits
          some value)
        (scan_name tail) in
    named ∙ ap (λ o. do (value, _) ← o; some value) (scan_uint-decimal n (10 ∷ rest) 13 small refl)

-- Where the first "CSeq" of a message begins the line of a header "CSeq: n" with a 32-bit number,
-- the parser succeeds and sets the connection's number to `n`, and nothing else.
pub parse_cseq-cseq_line :
    (message rest : List ℕ) (n i : ℕ) (c : RtspConnection)
    → find (codes "CSeq") message ≡ some i
    → drop i message ≡ cseq_line n rest
    → n < 2 ^ 32
    → parse_cseq message c ≡ (true, record c { cseq = n })
unfolding parse_cseq store_cseq scan_header_number find_from
parse_cseq-cseq_line message rest n i c found here small =
    let text : find_from (codes "CSeq") message ≡ some (cseq_line n rest) =
      ap (Option.map (λ j. drop j message)) found ∙ ap some here in
    let number : scan_header_number "CSeq" message ≡ some n =
      ap (λ o. do text ← o; number_of (c_str text)) text
      ∙ ap number_of (cseq_c_str n rest)
      ∙ number_of-cseq_line n (c_str rest) small in
    ap (λ o. store_cseq o c) number

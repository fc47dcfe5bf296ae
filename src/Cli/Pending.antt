-- ===== src/Cli/Pending.antt =====
-- The agent's answer to `LIST`, read by the command line.
use keyvisor.Wire.Decimal.{
  to_string, parse-to_string, to_string-AreDigits, u64_max, length-to_string, parse_u64,
}
use keyvisor.Cli.Tsv.{decode_hex_text-hex}
use keyvisor.Wire.Lines.{Lacks, newline, split_once-append, starts_with}
use keyvisor.Wire.Utf8.{IsText, from_utf8-IsText, append-IsText, ascii-IsText, codes}
use keyvisor.Agent.Control.{pending_lines, list_pending}
use keyvisor.Wire.Hex.{IsHexDigit, hex, length-hex, hex-AreHexDigits}
use keyvisor.Wire.Endian.{Bytes, AreBytes}
use keyvisor.Prelude.{
  ℕ, zero, suc, ◌+◌, ◌*◌, ◌≤◌, ◌<◌, ◌≡◌, refl, ap, ◌≢◌, false, some, List, [], ◌∷◌, ◌++◌, map,
  arith, ◌==◌, length, length-append, All, All-append, ok, bind-eq, fail_if-le, All-map,
}
use keyvisor.Cli.Defs.{
  max_control_line_bytes, max_pending_authorizations, invalid_request, response_not_utf8,
  too_many_requests,
}
use keyvisor.Cli.Control.{
  read_control_line, read_requests, fetch_authorization_requests, line_within, ok_or, strip_prefix,
}
use keyvisor.Agent.Pending.{Requests, PendingAuthorization}

-- A request as the agent makes them: an identifier that is a short text without tab and newline,
-- and the name of a stored key.
pub record IsPlain (id : Bytes) (request : PendingAuthorization) : Type 0 where
  pub text : IsText id
  pub one_line : Lacks newline id
  pub one_field : Lacks 9 id
  pub short : length id ≤ 1000
  pub bytes : AreBytes request.key_name
  pub name_text : IsText request.key_name
  pub name_short : length request.key_name ≤ 4 * 1024

abbrev pub ArePlain : Requests → Type 0
ArePlain = All (λ p. IsPlain p.0 p.1)

-- What the command line is to see.
abbrev pub names : Requests → List (Bytes × Bytes)
names requests = map (λ p. (p.0, p.1.key_name)) requests

line_within-append :
    (k : ℕ) (line rest : Bytes)
    → Lacks newline line
    → length line < k
    → line_within k (line ++ newline ∷ rest) ≡ ok (line, rest)
unfolding line_within
line_within-append zero line rest h fits = absurd (omega arith)
line_within-append (suc k) [] rest h fits = refl
line_within-append (suc k) (b ∷ line) rest (hb, h) fits =
    let e : (b == newline) ≡ false = ground arith in
    rw (line_within, e) (bind-eq _ (line_within-append k line rest h (omega arith)) refl)

read_control_line-append :
    (line rest : Bytes)
    → IsText line
    → Lacks newline line
    → length line ≤ max_control_line_bytes
    → read_control_line (line ++ newline ∷ rest) ≡ ok (line, rest)
unfolding read_control_line
read_control_line-append line rest text h fits =
    bind-eq _ (line_within-append (max_control_line_bytes + 1) line rest h (omega arith))
      (bind-eq _ (from_utf8-IsText response_not_utf8 line text) refl)

hex_digit-plain : (c : ℕ) → IsHexDigit c → (c ≢ newline) × (c < 128)
hex_digit-plain c h = ground arith

pending_line : Bytes → PendingAuthorization → Bytes
pending_line id request = id ++ 9 ∷ hex request.key_name

pending_line-IsText :
    (id : Bytes) (request : PendingAuthorization)
    → IsPlain id request
    → IsText (pending_line id request)
unfolding pending_line
pending_line-IsText id request p = append-IsText id (9 ∷ hex request.key_name) p.text (
    ascii-IsText _ (
      omega arith,
      All-map (λ c h. (hex_digit-plain c h).1) _ (hex-AreHexDigits request.key_name p.bytes),
    ))

pending_line-Lacks :
    (id : Bytes) (request : PendingAuthorization)
    → IsPlain id request
    → Lacks newline (pending_line id request)
unfolding pending_line
pending_line-Lacks id request p = All-append _ id (9 ∷ hex request.key_name) p.one_line (
  omega arith,
  All-map (λ c h. (hex_digit-plain c h).0) _ (hex-AreHexDigits request.key_name p.bytes),
)

read_pending_line :
    (id rest : Bytes) (request : PendingAuthorization)
    → IsPlain id request
    → read_control_line (pending_line id request ++ newline ∷ rest)
      ≡ ok (pending_line id request, rest)
unfolding pending_line
read_pending_line id rest request p =
    let a = p.short in
    let b = p.name_short in
    read_control_line-append (pending_line id request) rest (pending_line-IsText id request p)
      (pending_line-Lacks id request p)
      (omega (arith, length-append id (9 ∷ hex request.key_name), length-hex request.key_name))

read_requests-pending_lines :
    (requests : Requests)
    → ArePlain requests
    → read_requests (length requests) (pending_lines requests) ≡ ok (names requests)
unfolding read_requests pending_lines pending_line ok_or
read_requests-pending_lines [] h = refl
read_requests-pending_lines ((id, request) ∷ requests) (p, h) =
    bind-eq _ (read_pending_line id (pending_lines requests) request p) (
      bind-eq _
        (ap (ok_or invalid_request) (split_once-append 9 id (hex request.key_name) p.one_field))
        (bind-eq _ (decode_hex_text-hex request.key_name p.bytes p.name_text)
          (bind-eq _ (read_requests-pending_lines requests h) refl)))

header : ℕ → Bytes
header n = codes "OK KEYVISOR-PENDING-1 " ++ to_string n

read_header :
    (n : ℕ) (rest : Bytes)
    → n ≤ max_pending_authorizations
    → read_control_line (header n ++ newline ∷ rest) ≡ ok (header n, rest)
unfolding header
read_header n rest few =
    read_control_line-append (header n) rest
      (append-IsText (codes "OK KEYVISOR-PENDING-1 ") (to_string n)
        (ascii-IsText (codes "OK KEYVISOR-PENDING-1 ") (omega arith))
        (ascii-IsText _ (All-map (λ c (low, high). omega arith) _ (to_string-AreDigits n))))
      (All-append _ (codes "OK KEYVISOR-PENDING-1 ") (to_string n) (omega arith)
        (All-map (λ c (low, high). ground arith) _ (to_string-AreDigits n)))
      (omega
        (arith, length-append (codes "OK KEYVISOR-PENDING-1 ") (to_string n), length-to_string n))

strip_prefix-header :
    (n : ℕ) → strip_prefix (codes "OK KEYVISOR-PENDING-1 ") (header n) ≡ some (to_string n)
unfolding strip_prefix header starts_with
strip_prefix-header n = refl

-- The command line reads from the agent's answer to `LIST` the identifiers and names of the
-- requests that are pending, where there are at most 16 and the identifiers and names are short
-- texts.
pub fetch_authorization_requests-list_pending :
    (requests : Requests)
    → ArePlain requests
    → length requests ≤ max_pending_authorizations
    → fetch_authorization_requests (list_pending requests) ≡ ok (names requests)
unfolding fetch_authorization_requests list_pending header parse_u64
fetch_authorization_requests-list_pending requests plain few =
    bind-eq _ (read_header (length requests) (pending_lines requests) few) (
      bind-eq _ (ap (ok_or _) (strip_prefix-header (length requests))) (
        bind-eq _ (ap (ok_or _) (parse-to_string u64_max (length requests) (omega arith))) (
          bind-eq _ (fail_if-le (length requests) max_pending_authorizations too_many_requests few)
            (read_requests-pending_lines requests plain))))

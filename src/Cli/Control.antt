-- ===== src/Cli/Control.antt =====
-- The client of the agent's control socket: `read_control_line` and `fetch_authorization_requests`.
use keyvisor.Wire.Decimal.{parse_u64}
use keyvisor.Cli.Tsv.{decode_hex_text}
use keyvisor.Wire.Lines.{starts_with, split_once, newline}
use keyvisor.Wire.Utf8.{from_utf8, codes}
use keyvisor.Wire.Endian.{Bytes}
use keyvisor.Prelude.{
  ℕ, zero, suc, ◌+◌, true, false, Option, none, some, List, [], ◌∷◌, ltb, ◌==◌, if◌then◌else◌,
  length, drop, Result, ok, err, ◌>>=◌, ◌>>◌, fail_if,
}
use keyvisor.Cli.Defs.{
  CliError, max_control_line_bytes, max_pending_authorizations, invalid_control_response,
  invalid_request, control_failed, response_not_utf8, invalid_agent_response, invalid_count,
  agent_refused, too_many_requests,
}

-- The `while` loop, with the bytes that a line may still have; an empty list is the end of the
-- stream.
unfoldable pub line_within : ℕ → Bytes → Result CliError (Bytes × Bytes)
line_within zero input = err invalid_control_response
line_within (suc k) [] = err control_failed
line_within (suc k) (b ∷ input) = elim (b == newline) [
  | true ↦ ok ([], input)
  | false ↦ line_within k input >>= λ p. ok (b ∷ p.0, p.1)
]

unfoldable pub read_control_line : Bytes → Result CliError (Bytes × Bytes)
unfolding line_within
read_control_line input = do
  (line, rest) ← line_within (max_control_line_bytes + 1) input
  text ← from_utf8 response_not_utf8 line
  ok (text, rest)

-- `text.strip_prefix(prefix)`
unfoldable pub strip_prefix : Bytes → Bytes → Option Bytes
strip_prefix prefix text =
    if starts_with prefix text then some (drop (length prefix) text) else none

unfoldable pub control_error : Bytes → CliError
unfolding strip_prefix
control_error line = elim (strip_prefix (codes "ERR ") line) [
  | none ↦ invalid_agent_response
  | some text ↦ agent_refused text
]

unfoldable pub ok_or {ℓ} : {A : Type ℓ} → CliError → Option A → Result CliError A
ok_or e none = err e
ok_or e (some a) = ok a

-- The `for` loop over the announced count.
unfoldable pub read_requests : ℕ → Bytes → Result CliError (List (Bytes × Bytes))
unfolding ok_or
read_requests zero input = ok []
read_requests (suc n) input = do
  (line, rest) ← read_control_line input
  (id, name) ← ok_or invalid_request (split_once 9 line)
  key_name ← decode_hex_text name
  more ← read_requests n rest
  ok ((id, key_name) ∷ more)

-- On what the agent sends after `LIST`.
unfoldable pub fetch_authorization_requests : Bytes → Result CliError (List (Bytes × Bytes))
unfolding read_control_line read_requests strip_prefix control_error ok_or
fetch_authorization_requests input = do
  (header, rest) ← read_control_line input
  text ← ok_or (control_error header) (strip_prefix (codes "OK KEYVISOR-PENDING-1 ") header)
  count ← ok_or invalid_count (parse_u64 text)
  fail_if (ltb max_pending_authorizations count) too_many_requests
  read_requests count rest

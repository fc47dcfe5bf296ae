-- ===== src/Agent/Control.antt =====
-- `read_control_line` and `serve_control_connection`: the commands on the control socket.
use keyvisor.Wire.Cursor.{split_at}
use keyvisor.Wire.Lines.{newline, starts_with}
use keyvisor.Wire.Utf8.{codes, from_utf8}
use keyvisor.Wire.Hex.{hex}
use keyvisor.Wire.Words.{split_ascii_whitespace}
use keyvisor.Wire.Decimal.{parse_u64, to_string}
use keyvisor.Wire.Reader.{read_until, ends_with, pop_if}
use keyvisor.Wire.Endian.{Bytes}
use keyvisor.Prelude.{
  ℕ, ◌+◌, not, ◌&&◌, ◌||◌, Option, none, some, List, [], ◌∷◌, ◌++◌, ltb, leb, ◌==◌, if◌then◌else◌,
  length, is_empty, bytes_eq, Result, ok, err, ◌>>=◌,
}
use keyvisor.Agent.Defs.{
  AgentError, max_pin_bytes, max_control_line_bytes, invalid_authorization_command, not_pending,
  not_owner, invalid_length, missing_identifier, missing_length, no_longer_active,
  truncated_authorization, invalid_control_command, unknown_control_command, not_utf8,
}
use keyvisor.Agent.Pending.{Requests, PendingAuthorization, find, remove}

-- The line, and the bytes that the reader still has.
unfoldable pub read_control_line : Bytes → Result AgentError (Bytes × Bytes)
read_control_line input =
    let (line, rest) = read_until (max_control_line_bytes + 1) newline input in
    if not (ends_with newline line) || ltb max_control_line_bytes (length line)
    then err invalid_control_command
    else (from_utf8 not_utf8 (pop_if newline line) >>= λ text. ok (text, rest))

-- The fields of a command that starts with `AUTHORIZE`, each with its guard.
unfoldable pub authorize_length : Bytes → Bytes → List Bytes → Result AgentError (Bytes × ℕ)
authorize_length id text more = elim (parse_u64 text) [
  | none ↦ err invalid_length
  | some n ↦
      if not (is_empty more) || not (leb 6 n && leb n max_pin_bytes)
      then err invalid_authorization_command
      else ok (id, n)
]

unfoldable pub authorize_fields : List Bytes → Result AgentError (Bytes × ℕ)
unfolding authorize_length
authorize_fields [] = err invalid_authorization_command
authorize_fields (command ∷ fields) =
    if not (bytes_eq command (codes "AUTHORIZE"))
    then err invalid_authorization_command
    else arguments fields
  where
    arguments : List Bytes → Result AgentError (Bytes × ℕ)
    arguments [] = err missing_identifier
    arguments (id ∷ []) = err missing_length
    arguments (id ∷ text ∷ more) = authorize_length id text more

-- The requests that wait, and each PIN that has been sent to a request.
pub record ControlState : Type 0 where
  pub pending : Requests
  pub delivered : List (Bytes × Bytes)

-- What is done on a command, what is written to the peer, and the state.
pub record Controlled : Type 0 where
  pub result : Result AgentError (Unit {0})
  pub output : Bytes
  pub state : ControlState

unfoldable pub refuse : AgentError → ControlState → Controlled
refuse e state = record { result = err e; output = []; state = state }

unfoldable pub accept : Bytes → ControlState → Controlled
accept output state = record { result = ok tt; output = output; state = state }

-- `send(pin)` to the request that `remove(id)` has taken.
unfoldable pub deliver : Bytes → Bytes → ControlState → Option PendingAuthorization → Controlled
unfolding refuse accept
deliver id pin state none = refuse not_pending state
deliver id pin state (some request) =
    let state' : ControlState = record state { pending = remove id state.pending } in
    if request.listening
    then accept (codes "OK authorized" ++ newline ∷ [])
        (record state' { delivered = state.delivered ++ (id, pin) ∷ [] })
    else refuse no_longer_active state'

-- After `read_exact` of the PIN.
unfoldable pub authorize_pin : Bytes → ControlState → Result AgentError (Bytes × Bytes) → Controlled
unfolding deliver refuse
authorize_pin id state (err e) = refuse e state
authorize_pin id state (ok (pin, rest)) = deliver id pin state (find id state.pending)

unfoldable pub authorize : Bytes → ControlState → Result AgentError (Bytes × ℕ) → Controlled
unfolding authorize_pin refuse
authorize input state (err e) = refuse e state
authorize input state (ok (id, n)) =
    authorize_pin id state (split_at truncated_authorization input n)

unfoldable pub pending_lines : Requests → Bytes
pending_lines [] = []
pending_lines ((id, request) ∷ requests) =
    (id ++ 9 ∷ hex request.key_name) ++ newline ∷ pending_lines requests

-- The requests in the order of the map's iterator, which is that of the list.
unfoldable pub list_pending : Requests → Bytes
unfolding pending_lines
list_pending requests =
    (codes "OK KEYVISOR-PENDING-1 " ++ to_string (length requests))
    ++ newline ∷ pending_lines requests

-- The arms of `match command.as_str()`.
unfoldable pub run_command : Bytes → Bytes → ControlState → Controlled
unfolding list_pending authorize authorize_fields accept refuse
run_command command input state =
    if bytes_eq command (codes "STATUS")
    then accept (codes "OK running" ++ newline ∷ []) state
    else if bytes_eq command (codes "LIST")
    then accept (list_pending state.pending) state
    else if starts_with (codes "AUTHORIZE ") command
    then authorize input state (authorize_fields (split_ascii_whitespace command))
    else refuse unknown_control_command state

unfoldable pub run_line : ControlState → Result AgentError (Bytes × Bytes) → Controlled
unfolding run_command refuse
run_line state (err e) = refuse e state
run_line state (ok (command, rest)) = run_command command rest state

-- The peer's user must be the agent's. The peer's bytes are those that it sends in time; the
-- writes to it succeed.
unfoldable pub serve_control_connection : ℕ → ℕ → Bytes → ControlState → Controlled
unfolding read_control_line run_line refuse
serve_control_connection peer owner input state =
    if not (peer == owner) then refuse not_owner state else run_line state (read_control_line input)

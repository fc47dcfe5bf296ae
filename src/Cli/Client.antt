-- ===== src/Cli/Client.antt =====
-- The commands that talk with the agent: `agent status`, `authorize` and `exec`.
use Prim.Native.Nat.{bit_and}
use keyvisor.Agent.Exchange.{authorize_command}
use keyvisor.Wire.Lines.{newline}
use keyvisor.Cli.Secrets.{read_existing_pin}
use keyvisor.Wire.Utf8.{codes}
use keyvisor.Cli.Control.{fetch_authorization_requests, ok_or, read_control_line, control_error}
use keyvisor.Cli.Commands.{print_lines, on_console, Run}
use keyvisor.Cli.Defs.{
  CliError, not_running, not_a_socket, usage, not_pending, socket_not_private, cannot_connect,
}
use keyvisor.Wire.Endian.{Bytes}
use keyvisor.Prelude.{
  ℕ, Bool, true, false, not, ◌||◌, Option, none, some, List, [], ◌∷◌, ◌++◌, map, ◌==◌,
  if◌then◌else◌, is_empty, bytes_eq, Result, ok, err, ◌>>=◌, ◌>>◌, fail_if, then_do,
}
use keyvisor.Cli.Arguments.{auto, authorize_options, SecretInput}

-- The control socket as `symlink_metadata` and `connect` find it.
pub record Socket : Type 0 where
  pub exists : Bool
  pub is_socket : Bool
  pub mode : ℕ
  pub owner : ℕ
  pub accepts : Bool

-- An answer of the agent to what a connection sends; an error stands for a connection that fails.
abbrev pub Peer : Type 0
Peer = Bytes → Result CliError Bytes

unfoldable pub connect_control : ℕ → Socket → Result CliError (Unit {0})
connect_control user socket = do
  fail_if (not socket.exists) not_running
  fail_if (not socket.is_socket) not_a_socket
  fail_if (not (bit_and socket.mode 0o777 == 0o600) || not (socket.owner == user))
      socket_not_private
  fail_if (not socket.accepts) cannot_connect

-- A connection: a request is sent, and the answer is what is then read.
unfoldable pub exchange : ℕ → Socket → Peer → Bytes → Result CliError Bytes
unfolding connect_control
exchange user socket peer request = do connect_control user socket; peer request

-- `line == expected`, or the error that the line stands for.
unfoldable pub expect_line : Bytes → Bytes → Result CliError (Unit {0})
unfolding read_control_line control_error
expect_line expected answer = do
  (line, rest) ← read_control_line answer
  if bytes_eq line expected then ok tt else err (control_error line)

module _ (user : ℕ) (socket : Socket) (peer : Peer) where
  unfoldable pub run_agent : List Bytes → Run (Unit {0})
  unfolding exchange expect_line print_lines
  run_agent (argument ∷ []) shell = elim (bytes_eq argument (codes "status")) [
    | false ↦ (err usage, shell)
    | true ↦
        then_do
          (
            exchange user socket peer (codes "STATUS" ++ newline ∷ [])
                >>= expect_line (codes "OK running"),
            shell,
          )
          λ _ sh. print_lines (codes "running" ∷ []) sh
  ]
  run_agent [] shell = (err usage, shell)
  run_agent (argument ∷ more ∷ rest) shell = (err usage, shell)

  unfoldable pub pending_requests : Result CliError (List (Bytes × Bytes))
  unfolding exchange fetch_authorization_requests
  pending_requests = do
    answer ← exchange user socket peer (codes "LIST" ++ newline ∷ [])
    fetch_authorization_requests answer

  -- Where there is no socket, nothing is pending.
  unfoldable pub pending_if_running : Result CliError (List (Bytes × Bytes))
  unfolding pending_requests
  pending_if_running = if socket.exists then pending_requests else ok []

  unfoldable pub request_line : Bytes × Bytes → Bytes
  request_line (id, name) = id ++ codes "  " ++ name

  unfoldable pub list_authorization_requests : Run (Unit {0})
  unfolding pending_requests print_lines request_line
  list_authorization_requests shell =
      then_do (pending_requests, shell)
        λ requests sh.
          print_lines
            (if is_empty requests
              then codes "No pending authorization requests." ∷ []
              else map request_line requests)
            sh

  unfoldable pub authorize_request : Bool → Bytes → Bytes → SecretInput → Bool → Run (Unit {0})
  unfolding on_console read_existing_pin exchange authorize_command expect_line print_lines
  authorize_request graphical id key_name secret_input report_success shell =
      then_do (on_console (read_existing_pin graphical key_name secret_input) shell) λ secret sh₁.
        then_do
          (
            exchange user socket peer (authorize_command id secret)
                >>= expect_line (codes "OK authorized"),
            sh₁,
          )
          λ _ sh₂.
            if report_success
            then print_lines ((codes "authorized " ++ id) ∷ []) sh₂
            else (ok tt, sh₂)

  -- `find_map` over the requests: the name of the key of a request.
  unfoldable pub key_of : Bytes → List (Bytes × Bytes) → Option Bytes
  key_of id [] = none
  key_of id ((request_id, key_name) ∷ requests) =
      if bytes_eq request_id id then some key_name else key_of id requests

  unfoldable pub authorize_named : Bool → Option Bytes × SecretInput → Run (Unit {0})
  unfolding list_authorization_requests pending_requests key_of ok_or authorize_request
  authorize_named graphical (none, secret_input) shell = list_authorization_requests shell
  authorize_named graphical (some id, secret_input) shell =
      then_do (pending_requests, shell)
        λ requests sh₁.
          then_do (ok_or not_pending (key_of id requests), sh₁)
            λ key_name sh₂. authorize_request graphical id key_name secret_input true sh₂

  unfoldable pub run_authorize : Bool → List Bytes → Run (Unit {0})
  unfolding authorize_options authorize_named
  run_authorize graphical arguments shell =
      then_do (authorize_options none auto arguments, shell)
        λ chosen sh. authorize_named graphical chosen sh

-- ===== src/Cli/Main.antt =====
-- `run`: the commands by their words, and `run_key`.
use keyvisor.Wire.Utf8.{codes}
use keyvisor.Cli.Tables.{Encoders}
use keyvisor.Wire.Endian.{Bytes}
use keyvisor.Cli.Client.{
  authorize_request, pending_if_running, run_agent, Socket, run_authorize, Peer,
}
use keyvisor.Cli.Create.{create_key, Command, Setup, Shell}
use keyvisor.Cli.Commands.{
  Run, print_lines, list_keys, run_config, show_key, delete_key, run_history,
}
use keyvisor.Tpm.Defs.{TpmError}
use keyvisor.Cli.Exec.{exit_status_code, ExitStatus, run_exec, Round}
use keyvisor.Cli.Defs.{CliError, invalid_key_command, unknown_command}
use keyvisor.Tpm.Tss.{Tss}
use keyvisor.Prelude.{
  ℕ, Bool, false, ◌&&◌, ◌||◌, Option, none, some, List, [], ◌∷◌, ◌==◌, if◌then◌else◌, length,
  is_empty, bytes_eq, Result, ok, err, ◌>>=◌,
}

-- What a command works on besides the files and the console.
pub record World (t : Tss) : Type 0 where
  pub connected : Result TpmError (ℕ × Bytes)
  pub setup : Setup
  pub encoders : Encoders
  pub user : ℕ
  pub socket : Socket
  pub peer : Peer
  pub rounds : List Round
  pub child_starts : Bool
  pub version_line : Bytes
  pub help_lines : List Bytes

-- How the process goes on: it returns, or it exits with a code.
pub data Outcome : Type 0 where
  returned : Outcome
  exits : ℕ → Outcome

unfoldable pub returns : {S : Type 0} → Result CliError (Unit {0}) × S → Result CliError Outcome × S
returns (ok u, s) = (ok returned, s)
returns (err e, s) = (err e, s)

-- `std::process::exit(exit_status_code(status))`; a child that still runs has not returned yet.
unfoldable pub exit_of : Option ExitStatus → Outcome
unfolding exit_status_code
exit_of none = returned
exit_of (some status) = exits (exit_status_code status)

module _ (t : Tss) (world : World t) where
  -- A command that does not use the TPM.
  unfoldable pub without_tpm : Run (Unit {0}) → Command t world.connected world.setup (Unit {0})
  without_tpm command (shell, s) = let (r, shell') = command shell in (r, (shell', s))

  unfoldable pub run_key : List Bytes → Command t world.connected world.setup (Unit {0})
  unfolding create_key without_tpm list_keys show_key delete_key
  run_key [] w = (err invalid_key_command, w)
  run_key (command ∷ rest) w =
      if bytes_eq command (codes "create")
      then create_key t world.connected world.setup rest w
      else if bytes_eq command (codes "list")
      then without_tpm (list_keys world.encoders world.setup rest) w
      else if bytes_eq command (codes "show") && length rest == 1
      then without_tpm
          (show_key world.encoders world.setup (elim rest [ [] ↦ [] | id ∷ more ↦ id ])) w
      else if bytes_eq command (codes "delete")
      then without_tpm (delete_key world.setup rest) w
      else (err invalid_key_command, w)

  -- The authorization of a single pending request, in the terminal and without a report.
  unfoldable pub authorize_pending : Bytes → Bytes → Run (Unit {0})
  unfolding authorize_request
  authorize_pending id key_name shell =
      authorize_request world.user world.socket world.peer world.setup.graphical id key_name
        keyvisor.Cli.Arguments.terminal false shell

  unfoldable pub run_exec_command :
      List Bytes → Shell × t.State → Result CliError Outcome × (Shell × t.State)
  unfolding run_exec authorize_pending pending_if_running exit_of
  run_exec_command arguments (shell, s) =
      let (r, shell') =
        run_exec authorize_pending (pending_if_running world.user world.socket world.peer)
          world.child_starts world.rounds arguments shell in
      (r >>= λ status. ok (exit_of status), (shell', s))

  unfoldable pub run : List Bytes → Shell × t.State → Result CliError Outcome × (Shell × t.State)
  unfolding returns without_tpm print_lines run_key run_config run_agent run_history run_authorize
      run_exec_command
  run [] w = returns (without_tpm (print_lines world.help_lines) w)
  run (word ∷ rest) w =
      if is_empty rest && (bytes_eq word (codes "--version") || bytes_eq word (codes "-V"))
      then returns (without_tpm (print_lines (world.version_line ∷ [])) w)
      else if is_empty rest && (bytes_eq word (codes "--help") || bytes_eq word (codes "-h"))
      then returns (without_tpm (print_lines world.help_lines) w)
      else if bytes_eq word (codes "key")
      then returns (run_key rest w)
      else if bytes_eq word (codes "config")
      then returns (without_tpm (run_config world.setup rest) w)
      else if bytes_eq word (codes "agent")
      then returns (without_tpm (run_agent world.user world.socket world.peer rest) w)
      else if bytes_eq word (codes "history")
      then returns (without_tpm (run_history world.setup rest) w)
      else if bytes_eq word (codes "authorize")
      then returns (
          without_tpm (run_authorize world.user world.socket world.peer world.setup.graphical rest)
            w)
      else if bytes_eq word (codes "exec")
      then run_exec_command rest w
      else (err unknown_command, w)

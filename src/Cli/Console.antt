-- ===== src/Cli/Console.antt =====
-- Where the command line reads secrets and answers: the terminal, the standard input, the dialog.
use keyvisor.Cli.Arguments.{auto, terminal, pinentry, stdin}
use keyvisor.Wire.Lines.{newline}
use keyvisor.Wire.Reader.{read_until}
use keyvisor.Wire.Utf8.{codes, from_utf8}
use keyvisor.Wire.Trim.{trim}
use keyvisor.Cli.Pin.{read_pin_line}
use keyvisor.Cli.Arguments.{SecretInput, pinentry, terminal}
use keyvisor.Cli.Defs.{CliError, tty_failed, cancelled}
use keyvisor.Wire.Endian.{Bytes}
use keyvisor.Prelude.{
  ℕ, Bool, false, not, ◌||◌, List, [], ◌∷◌, if◌then◌else◌, length, bytes_eq, Result, err, ◌>>=◌,
  ◌>>◌, fail_if, then_do,
}

-- What happens when `/dev/tty` is opened: which calls succeed, and what is typed.
pub record Terminal : Type 0 where
  pub opens : Bool
  pub prompts : Bool
  pub inspects : Bool
  pub hides : Bool
  pub restores : Bool
  pub ends_line : Bool
  pub typed : Bytes

-- A run of `pinentry-gnome3`: whether it starts and can be waited for, how many lines its pipe
-- takes, what it writes, and whether it exits with success.
pub record Dialog : Type 0 where
  pub starts : Bool
  pub accepts : ℕ
  pub output : Bytes
  pub waits : Bool
  pub succeeds : Bool

-- The runs to come of the terminal and of the dialog, what the standard input still has, whether
-- the terminal echoes, and what was sent to dialogs.
pub record Console : Type 0 where
  pub terminals : List Terminal
  pub dialogs : List Dialog
  pub standard_input : Bytes
  pub echo : Bool
  pub sent : List Bytes

abbrev pub Read : Type 0 → Type 0
Read A = Console → Result CliError A × Console

unfoldable pub require : Bool → CliError → Result CliError (Unit {0})
require b e = fail_if (not b) e

-- `graphical_session_available`, by whether the variables are set and not empty.
unfoldable pub resolve_secret_input : Bool → SecretInput → SecretInput
resolve_secret_input graphical auto = if graphical then pinentry else terminal
resolve_secret_input graphical terminal = terminal
resolve_secret_input graphical pinentry = pinentry
resolve_secret_input graphical stdin = stdin

-- From the line without echo on: the echo is restored before the result is looked at.
unfoldable pub read_hidden : Terminal → Bool → Result CliError Bytes × Bool
unfolding require read_pin_line
read_hidden t echo =
    let result = (read_pin_line t.typed).0 in
    let restored = require t.restores tty_failed in
    let ended = require t.ends_line tty_failed in
    ((do restored; ended; result), if t.restores then echo else false)

-- The echo of the terminal afterwards is the second component.
unfoldable pub with_terminal : Terminal → Bool → Result CliError Bytes × Bool
unfolding require read_hidden
with_terminal t echo =
    then_do (require t.opens tty_failed, echo)
      λ _ e₁.
        then_do (require t.prompts tty_failed, e₁)
          λ _ e₂.
            then_do (require t.inspects tty_failed, e₂)
              λ _ e₃. then_do (require t.hides tty_failed, e₃) (λ _ e₄. read_hidden t e₄)

unfoldable pub read_secret_from_tty : Read Bytes
unfolding with_terminal
read_secret_from_tty console = elim console.terminals [
  | [] ↦ (err tty_failed, console)
  | t ∷ rest ↦ (
    (with_terminal t console.echo).0,
    record console { terminals = rest; echo = (with_terminal t console.echo).1 },
  )
]

-- `read_pin_line` of the standard input.
unfoldable pub read_stdin_line : Read Bytes
unfolding read_pin_line
read_stdin_line console =
    let (result, rest) = read_pin_line console.standard_input in
    (result, record console { standard_input = rest })

-- The answer that `require_confirmation` takes for a yes.
unfoldable pub is_yes : Bytes → Bool
is_yes answer =
    bytes_eq answer (codes "y")
    || bytes_eq answer (codes "Y")
    || bytes_eq answer (codes "yes")
    || bytes_eq answer (codes "YES")

unfoldable pub read_answer : Terminal → Result CliError (Unit {0})
unfolding require is_yes trim
read_answer t = do
  require t.opens tty_failed
  require t.prompts tty_failed
  answer ← from_utf8 tty_failed (read_until (length t.typed) newline t.typed).0
  require (is_yes (trim answer)) cancelled

unfoldable pub require_confirmation : Read (Unit {0})
unfolding read_answer
require_confirmation console = elim console.terminals [
  | [] ↦ (err tty_failed, console)
  | t ∷ rest ↦ (read_answer t, record console { terminals = rest })
]

-- ===== src/Cli/Dialog.antt =====
-- `read_secret_from_pinentry`: the commands to the dialog, and its answers.
use keyvisor.Wire.Utf8.{codes}
use keyvisor.Cli.Console.{require, Read, Dialog}
use keyvisor.Cli.Assuan.{assuan_escape}
use keyvisor.Cli.Pin.{read_pinentry_response, validate_pin}
use keyvisor.Cli.Defs.{
  CliError, invalid_greeting, invalid_response, dialog_failed, unexpected_data, entry_cancelled,
}
use keyvisor.Wire.Endian.{Bytes}
use keyvisor.Prelude.{
  ℕ, zero, suc, not, Option, none, some, List, [], ◌∷◌, ◌++◌, is_empty, Result, ok, err, ◌>>=◌,
  ◌>>◌, fail_if, then_do,
}

-- What the pipe still takes, what the dialog's output still has, and the lines sent so far.
pub record Pipe : Type 0 where
  pub accepts : ℕ
  pub output : Bytes
  pub sent : List Bytes

abbrev pub Talk : Type 0 → Type 0
Talk A = Pipe → Result CliError A × Pipe

-- `read_pinentry_response` always answers.
unfoldable pub response : Talk Bytes
unfolding read_pinentry_response
response pipe = elim (read_pinentry_response pipe.output) [
  | none ↦ (err invalid_response, pipe)
  | some (err e) ↦ (err e, pipe)
  | some (ok p) ↦ (ok p.0, record pipe { output = p.1 })
]

-- `writeln!(input, …).and_then(|()| input.flush())`
unfoldable pub write_line : Bytes → Talk (Unit {0})
write_line command pipe = elim pipe.accepts [
  | zero ↦ (err dialog_failed, pipe)
  | suc n ↦ (ok tt, record pipe { accepts = n; sent = pipe.sent ++ command ∷ [] })
]

unfoldable pub expect_pinentry_ok : Talk (Unit {0})
unfolding response
expect_pinentry_ok pipe =
    then_do (response pipe) λ found p. (fail_if (not (is_empty found)) invalid_greeting, p)

unfoldable pub send_pinentry_command : Bytes → Talk (Unit {0})
unfolding response write_line
send_pinentry_command command pipe =
    then_do (write_line command pipe)
      λ _ p₁. then_do (response p₁) λ found p₂. (fail_if (not (is_empty found)) unexpected_data, p₂)

-- The `for` loop over the commands.
unfoldable pub send_pinentry_commands : List Bytes → Talk (Unit {0})
unfolding send_pinentry_command
send_pinentry_commands [] pipe = (ok tt, pipe)
send_pinentry_commands (command ∷ commands) pipe =
    then_do (send_pinentry_command command pipe) (λ _ p. send_pinentry_commands commands p)

unfoldable pub ok_label : Option Bytes → Bytes
ok_label none = codes "Authorize"
ok_label (some prompt) = codes "Create"

unfoldable pub dialog_commands : Bytes → Option Bytes → List Bytes
unfolding assuan_escape ok_label
dialog_commands description repeat_prompt =
    codes "SETTIMEOUT 120"
    ∷ (codes "SETTITLE " ++ assuan_escape (codes "Keyvisor TPM Authorization"))
    ∷ (codes "SETDESC " ++ assuan_escape description)
    ∷ (codes "SETPROMPT " ++ assuan_escape (codes "TPM PIN:"))
    ∷ (codes "SETOK " ++ assuan_escape (ok_label repeat_prompt))
    ∷ (codes "SETCANCEL " ++ assuan_escape (codes "Cancel"))
    ∷ elim repeat_prompt [
      | none ↦ []
      | some prompt ↦ (codes "SETREPEAT " ++ assuan_escape prompt) ∷ []
    ]

-- The closure that talks with the dialog.
unfoldable pub converse : Bytes → Option Bytes → Talk Bytes
unfolding expect_pinentry_ok send_pinentry_commands dialog_commands write_line response
converse description repeat_prompt pipe = then_do (expect_pinentry_ok pipe) λ _ p₁.
    then_do (send_pinentry_commands (dialog_commands description repeat_prompt) p₁)
      λ _ p₂. then_do (write_line (codes "GETPIN") p₂) (λ _ p₃. response p₃)

unfoldable pub dialog_result : Dialog → Result CliError Bytes → Result CliError Bytes
unfolding require validate_pin
dialog_result dialog result = do
  require dialog.waits dialog_failed
  secret ← result
  require dialog.succeeds entry_cancelled
  validate_pin secret

-- One run of the dialog, with the lines sent before and after it.
unfoldable pub run_dialog :
    Bytes → Option Bytes → Dialog → List Bytes → Result CliError Bytes × List Bytes
unfolding converse dialog_result require
run_dialog description repeat_prompt dialog sent =
    then_do (require dialog.starts dialog_failed, sent)
      λ _ sent'.
        let (result, pipe) =
          converse description repeat_prompt
            (record { accepts = dialog.accepts; output = dialog.output; sent = sent' }) in
        (dialog_result dialog result, pipe.sent)

unfoldable pub read_secret_from_pinentry : Bytes → Option Bytes → Read Bytes
unfolding run_dialog
read_secret_from_pinentry description repeat_prompt console = elim console.dialogs [
  | [] ↦ (err dialog_failed, console)
  | dialog ∷ rest ↦ (
    (run_dialog description repeat_prompt dialog console.sent).0,
    record console {
      dialogs = rest;
      sent = (run_dialog description repeat_prompt dialog console.sent).1;
    },
  )
]

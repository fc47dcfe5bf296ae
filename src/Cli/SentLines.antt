-- ===== src/Cli/SentLines.antt =====
-- The lines that the dialog is sent.
use keyvisor.Cli.Console.{Read, Console, Dialog, require}
use keyvisor.Wire.Utf8.{codes}
use keyvisor.Cli.Pin.{read_pinentry_response}
use keyvisor.Cli.Assuan.{assuan_escape, assuan_escape-IsLine}
use keyvisor.Cli.Defs.{CliError, invalid_response, dialog_failed}
use keyvisor.Wire.Lines.{IsLine}
use keyvisor.Cli.Dialog.{
  Talk, write_line, expect_pinentry_ok, send_pinentry_command, send_pinentry_commands,
  dialog_commands, Pipe, response, ok_label, converse, read_secret_from_pinentry, run_dialog,
}
use keyvisor.Wire.Endian.{Bytes, AreBytes}
use keyvisor.Prelude.{
  ℕ, zero, suc, Option, none, some, List, [], ◌∷◌, ◌++◌, arith, All, All-append, Result, ok, err,
  then_do, then_do-post,
}

abbrev pub AreLines : List Bytes → Type 0
AreLines = All IsLine

-- A step that sends only lines.
abbrev Sends : {A : Type 0} → Talk A → Type 0
Sends step = (pipe : Pipe) → AreLines pipe.sent → AreLines (step pipe).1.sent

response-Sends : Sends response
unfolding response
response-Sends pipe h = of_answer (read_pinentry_response pipe.output)
  where
    of_answer :
        (o : Option (Result CliError (Bytes × Bytes)))
        → AreLines (
            (elim o as (λ _. Result CliError Bytes × Pipe) [
              | none ↦ (err invalid_response, pipe)
              | some r ↦ elim r [
                | ok p ↦ (ok p.0, record pipe { output = p.1 })
                | err e ↦ (err e, pipe)
              ]
            ]).1.sent)
    of_answer none = h
    of_answer (some (ok p)) = h
    of_answer (some (err e)) = h

write_line-Sends : (command : Bytes) → IsLine command → Sends (write_line command)
unfolding write_line
write_line-Sends command line pipe h = of_accepts pipe.accepts
  where
    of_accepts : (n : ℕ) → AreLines (write_line command (record pipe { accepts = n })).1.sent
    of_accepts zero = h
    of_accepts (suc n) = All-append IsLine pipe.sent (command ∷ []) h (line, tt)

then_do-Sends :
    {A B : Type 0} (step : Talk A) (k : A → Talk B)
    → Sends step
    → ((a : A) → Sends (k a))
    → Sends (λ pipe. then_do (step pipe) k)
then_do-Sends step k first rest pipe h =
    then_do-post (λ r. AreLines r.1.sent) (step pipe) k (λ e f. first pipe h)
      (λ a f. rest a (step pipe).1 (first pipe h))

expect_pinentry_ok-Sends : Sends expect_pinentry_ok
unfolding expect_pinentry_ok
expect_pinentry_ok-Sends = then_do-Sends response _ response-Sends (λ found pipe h. h)

send_pinentry_command-Sends :
    (command : Bytes) → IsLine command → Sends (send_pinentry_command command)
unfolding send_pinentry_command
send_pinentry_command-Sends command line =
    then_do-Sends (write_line command) _ (write_line-Sends command line)
      (λ _. then_do-Sends response _ response-Sends (λ found pipe h. h))

send_pinentry_commands-Sends :
    (commands : List Bytes) → AreLines commands → Sends (send_pinentry_commands commands)
unfolding send_pinentry_commands
send_pinentry_commands-Sends [] lines = λ pipe h. h
send_pinentry_commands-Sends (command ∷ commands) (line, lines) =
    then_do-Sends (send_pinentry_command command) _ (send_pinentry_command-Sends command line)
      (λ _. send_pinentry_commands-Sends commands lines)

append-IsLine : (a b : Bytes) → IsLine a → IsLine b → IsLine (a ++ b)
append-IsLine a b (an, ar) (bn, br) = (All-append _ a b an bn, All-append _ a b ar br)

escaped-IsLine :
    (keyword value : Bytes)
    → IsLine keyword
    → AreBytes value
    → IsLine (keyword ++ assuan_escape value)
escaped-IsLine keyword value line all =
    append-IsLine keyword (assuan_escape value) line (assuan_escape-IsLine value all)

abbrev OfBytes : Option Bytes → Type 0
OfBytes none = Unit
OfBytes (some prompt) = AreBytes prompt

dialog_commands-AreLines :
    (description : Bytes) (repeat_prompt : Option Bytes)
    → AreBytes description
    → OfBytes repeat_prompt
    → AreLines (dialog_commands description repeat_prompt)
unfolding dialog_commands ok_label
dialog_commands-AreLines description none all _ = (
  (omega arith, omega arith),
  (
    escaped-IsLine (codes "SETTITLE ") (codes "Keyvisor TPM Authorization")
        (omega arith, omega arith) (omega arith),
    (
      escaped-IsLine (codes "SETDESC ") description (omega arith, omega arith) all,
      (
        escaped-IsLine (codes "SETPROMPT ") (codes "TPM PIN:") (omega arith, omega arith)
            (omega arith),
        (
          escaped-IsLine (codes "SETOK ") (codes "Authorize") (omega arith, omega arith)
              (omega arith),
          (
            escaped-IsLine (codes "SETCANCEL ") (codes "Cancel") (omega arith, omega arith)
                (omega arith),
            tt,
          ),
        ),
      ),
    ),
  ),
)
dialog_commands-AreLines description (some prompt) all prompts = (
  (omega arith, omega arith),
  (
    escaped-IsLine (codes "SETTITLE ") (codes "Keyvisor TPM Authorization")
        (omega arith, omega arith) (omega arith),
    (
      escaped-IsLine (codes "SETDESC ") description (omega arith, omega arith) all,
      (
        escaped-IsLine (codes "SETPROMPT ") (codes "TPM PIN:") (omega arith, omega arith)
            (omega arith),
        (
          escaped-IsLine (codes "SETOK ") (codes "Create") (omega arith, omega arith) (omega arith),
          (
            escaped-IsLine (codes "SETCANCEL ") (codes "Cancel") (omega arith, omega arith)
                (omega arith),
            (escaped-IsLine (codes "SETREPEAT ") prompt (omega arith, omega arith) prompts, tt),
          ),
        ),
      ),
    ),
  ),
)

converse-Sends :
    (description : Bytes) (repeat_prompt : Option Bytes)
    → AreBytes description
    → OfBytes repeat_prompt
    → Sends (converse description repeat_prompt)
unfolding converse
converse-Sends description repeat_prompt all prompts =
    then_do-Sends expect_pinentry_ok _ expect_pinentry_ok-Sends λ _.
      then_do-Sends (send_pinentry_commands (dialog_commands description repeat_prompt)) _
        (send_pinentry_commands-Sends (dialog_commands description repeat_prompt)
          (dialog_commands-AreLines description repeat_prompt all prompts))
        λ _.
          then_do-Sends (write_line (codes "GETPIN")) _
            (write_line-Sends (codes "GETPIN") (omega arith, omega arith)) (λ _. response-Sends)

-- A reader that sends only lines to dialogs.
abbrev pub Says : Read Bytes → Type 0
Says read_once = (console : Console) → AreLines console.sent → AreLines (read_once console).1.sent

pub read_secret_from_pinentry-Says :
    (description : Bytes) (repeat_prompt : Option Bytes)
    → AreBytes description
    → OfBytes repeat_prompt
    → Says (read_secret_from_pinentry description repeat_prompt)
unfolding read_secret_from_pinentry run_dialog
read_secret_from_pinentry-Says description repeat_prompt all prompts console h =
    of_dialogs console.dialogs
  where
    of_dialogs :
        (dialogs : List Dialog)
        → AreLines
            (read_secret_from_pinentry description repeat_prompt
              (record console { dialogs = dialogs })).1.sent
    of_dialogs [] = h
    of_dialogs (dialog ∷ rest) =
        then_do-post (λ r. AreLines r.1) (require dialog.starts dialog_failed, console.sent) _
          (λ e f. h) (λ _ _. converse-Sends description repeat_prompt all prompts _ h)

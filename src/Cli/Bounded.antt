-- ===== src/Cli/Bounded.antt =====
-- A PIN that is read, from whichever source.
use keyvisor.Wire.Utf8.{codes}
use keyvisor.Cli.Defs.{CliError, max_pin_bytes, tty_failed, dialog_failed, entry_cancelled}
use keyvisor.Cli.Dialog.{dialog_result, read_secret_from_pinentry, run_dialog}
use keyvisor.Cli.Secrets.{
  read_twice, confirmed_pin, new_pin_from, existing_pin_from, read_new_pin, read_existing_pin,
  create_description, authorize_description,
}
use keyvisor.Cli.Console.{
  Read, read_hidden, with_terminal, read_secret_from_tty, read_stdin_line, Console, Terminal,
  Dialog, require, resolve_secret_input,
}
use keyvisor.Cli.Pin.{validate_pin, read_pin_line-bounds}
use keyvisor.Wire.Endian.{Bytes}
use keyvisor.Prelude.{
  ◌≤◌, ◌≡◌, subst, ◌⊎◌, inl, inr, Bool, Option, none, some, List, [], ◌∷◌, arith, length, bytes_eq,
  Result, ok, bind-eq-ok, ok-injective, if-cases, then_do-ok,
}
use keyvisor.Cli.Arguments.{auto, terminal, pinentry, stdin, SecretInput}

abbrev pub IsAccepted : Bytes → Type 0
IsAccepted secret = (6 ≤ length secret) × (length secret ≤ max_pin_bytes)

validate_pin-IsAccepted :
    (input secret : Bytes) → validate_pin input ≡ ok secret → IsAccepted secret
unfolding validate_pin
validate_pin-IsAccepted input secret h = ground arith

-- A reader returns only what is a PIN.
abbrev Bounds : Read Bytes → Type 0
Bounds read_once =
    (console : Console) (secret : Bytes) → (read_once console).0 ≡ ok secret → IsAccepted secret

read_hidden-IsAccepted :
    (t : Terminal) (echo : Bool) {secret : Bytes}
    → (read_hidden t echo).0 ≡ ok secret
    → IsAccepted secret
unfolding read_hidden
read_hidden-IsAccepted t echo {secret} h =
    let (u, e₁, h₁) = bind-eq-ok (require t.restores tty_failed) _ h in
    let (v, e₂, h₂) = bind-eq-ok (require t.ends_line tty_failed) _ h₁ in
    read_pin_line-bounds t.typed secret h₂

with_terminal-IsAccepted :
    (t : Terminal) (echo : Bool) {secret : Bytes}
    → (with_terminal t echo).0 ≡ ok secret
    → IsAccepted secret
unfolding with_terminal
with_terminal-IsAccepted t echo h =
    let (u₁, e₁, f₁, h₁) = then_do-ok (require t.opens tty_failed, echo) _ h in
    let (u₂, e₂, f₂, h₂) = then_do-ok (require t.prompts tty_failed, echo) _ h₁ in
    let (u₃, e₃, f₃, h₃) = then_do-ok (require t.inspects tty_failed, echo) _ h₂ in
    let (u₄, e₄, f₄, h₄) = then_do-ok (require t.hides tty_failed, echo) _ h₃ in
    read_hidden-IsAccepted t echo h₄

read_secret_from_tty-Bounds : Bounds read_secret_from_tty
unfolding read_secret_from_tty
read_secret_from_tty-Bounds console secret h = of_terminals console.terminals h
  where
    of_terminals :
        (terminals : List Terminal) {secret : Bytes}
        → (read_secret_from_tty (record console { terminals = terminals })).0 ≡ ok secret
        → IsAccepted secret
    of_terminals [] h = cc
    of_terminals (t ∷ rest) h = with_terminal-IsAccepted t console.echo h

read_stdin_line-Bounds : Bounds read_stdin_line
unfolding read_stdin_line
read_stdin_line-Bounds console secret h = read_pin_line-bounds console.standard_input secret h

read_twice-Bounds : (read_once : Read Bytes) → Bounds read_once → Bounds (read_twice read_once)
unfolding read_twice confirmed_pin
read_twice-Bounds read_once bounds console secret h =
    let (first, e₁, f₁, h₁) = then_do-ok (read_once console) _ h in
    let (second, e₂, f₂, h₂) = then_do-ok (read_once (read_once console).1) _ h₁ in
    elim (if-cases (bytes_eq first second) h₂) [
      | inl (same, made) ↦ subst IsAccepted (ok-injective made) (bounds console first e₁)
      | inr (differs, failed) ↦ cc
    ]

dialog_result-IsAccepted :
    (dialog : Dialog) (result : Result CliError Bytes) {secret : Bytes}
    → dialog_result dialog result ≡ ok secret
    → IsAccepted secret
unfolding dialog_result
dialog_result-IsAccepted dialog result {secret} h =
    let (u, waited, h₁) = bind-eq-ok (require dialog.waits dialog_failed) _ h in
    let (given, answered, h₂) = bind-eq-ok result _ h₁ in
    let (v, exited, h₃) = bind-eq-ok (require dialog.succeeds entry_cancelled) _ h₂ in
    validate_pin-IsAccepted given secret h₃

run_dialog-IsAccepted :
    (description : Bytes) (repeat_prompt : Option Bytes) (dialog : Dialog) (sent : List Bytes)
    {secret : Bytes}
    → (run_dialog description repeat_prompt dialog sent).0 ≡ ok secret
    → IsAccepted secret
unfolding run_dialog
run_dialog-IsAccepted description repeat_prompt dialog sent h =
    let (u, started, f, h₁) = then_do-ok (require dialog.starts dialog_failed, sent) _ h in
    dialog_result-IsAccepted dialog _ h₁

read_secret_from_pinentry-Bounds :
    (description : Bytes) (repeat_prompt : Option Bytes)
    → Bounds (read_secret_from_pinentry description repeat_prompt)
unfolding read_secret_from_pinentry
read_secret_from_pinentry-Bounds description repeat_prompt console secret h =
    of_dialogs console.dialogs h
  where
    of_dialogs :
        (dialogs : List Dialog)
        → (read_secret_from_pinentry description repeat_prompt
            (record console { dialogs = dialogs })).0
          ≡ ok secret
        → IsAccepted secret
    of_dialogs [] h = cc
    of_dialogs (dialog ∷ rest) h =
        run_dialog-IsAccepted description repeat_prompt dialog console.sent h

new_pin_from-Bounds :
    (key_name : Bytes) (input : SecretInput) → Bounds (new_pin_from key_name input)
unfolding new_pin_from
new_pin_from-Bounds key_name pinentry =
    read_secret_from_pinentry-Bounds (create_description key_name) (some (codes "Confirm TPM PIN:"))
new_pin_from-Bounds key_name stdin = read_twice-Bounds read_stdin_line read_stdin_line-Bounds
new_pin_from-Bounds key_name terminal =
    read_twice-Bounds read_secret_from_tty read_secret_from_tty-Bounds
new_pin_from-Bounds key_name auto =
    read_twice-Bounds read_secret_from_tty read_secret_from_tty-Bounds

existing_pin_from-Bounds :
    (key_name : Bytes) (input : SecretInput) → Bounds (existing_pin_from key_name input)
unfolding existing_pin_from
existing_pin_from-Bounds key_name pinentry =
    read_secret_from_pinentry-Bounds (authorize_description key_name) none
existing_pin_from-Bounds key_name stdin = read_stdin_line-Bounds
existing_pin_from-Bounds key_name terminal = read_secret_from_tty-Bounds
existing_pin_from-Bounds key_name auto = read_secret_from_tty-Bounds

-- Whatever is typed, piped or answered by the dialog, a PIN that is read for a new key or for an
-- existing one has 6 to 64 bytes.
pub read_pin-IsAccepted :
    (graphical : Bool) (key_name : Bytes) (input : SecretInput) (console : Console) (secret : Bytes)
    → ((read_new_pin graphical key_name input console).0 ≡ ok secret)
      ⊎ ((read_existing_pin graphical key_name input console).0 ≡ ok secret)
    → IsAccepted secret
unfolding read_new_pin read_existing_pin
read_pin-IsAccepted graphical key_name input console secret (inl h) =
    new_pin_from-Bounds key_name (resolve_secret_input graphical input) console secret h
read_pin-IsAccepted graphical key_name input console secret (inr h) =
    existing_pin_from-Bounds key_name (resolve_secret_input graphical input) console secret h

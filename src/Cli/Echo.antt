-- ===== src/Cli/Echo.antt =====
-- The echo of the terminal, and the lines that the dialog is sent.
use keyvisor.Wire.Utf8.{codes}
use keyvisor.Cli.Dialog.{read_secret_from_pinentry}
use keyvisor.Cli.Defs.{tty_failed}
use keyvisor.Wire.Endian.{Bytes}
use keyvisor.Cli.Secrets.{
  read_twice, new_pin_from, existing_pin_from, read_new_pin, read_existing_pin, create_description,
  authorize_description,
}
use keyvisor.Cli.Console.{
  Terminal, Read, with_terminal, read_secret_from_tty, read_hidden, Console, require,
  read_stdin_line, Dialog, resolve_secret_input,
}
use keyvisor.Prelude.{
  ◌≡◌, refl, ◌∙◌, Bool, true, Option, none, some, List, [], ◌∷◌, All, then_do-post,
}
use keyvisor.Cli.Arguments.{auto, terminal, pinentry, stdin, SecretInput}

-- Every terminal to come takes its settings back.
abbrev pub Restore : List Terminal → Type 0
Restore = All (λ t. t.restores ≡ true)

-- A reader leaves the echo as it was, and what it leaves of the terminals restores too.
abbrev Echoes : Read Bytes → Type 0
Echoes read_once =
    (console : Console)
    → Restore console.terminals
    → ((read_once console).1.echo ≡ console.echo) × Restore (read_once console).1.terminals

with_terminal-echo :
    (t : Terminal) (echo : Bool) → t.restores ≡ true → (with_terminal t echo).1 ≡ echo
unfolding with_terminal read_hidden
with_terminal-echo t echo h =
    then_do-post (λ r. r.1 ≡ echo) (require t.opens tty_failed, echo) _ (λ e f. refl)
      λ _ _.
        then_do-post (λ r. r.1 ≡ echo) (require t.prompts tty_failed, echo) _ (λ e f. refl)
          λ _ _.
            then_do-post (λ r. r.1 ≡ echo) (require t.inspects tty_failed, echo) _ (λ e f. refl)
              λ _ _.
                then_do-post (λ r. r.1 ≡ echo) (require t.hides tty_failed, echo) _ (λ e f. refl)
                  (λ _ _. rw h refl)

read_secret_from_tty-Echoes : Echoes read_secret_from_tty
unfolding read_secret_from_tty
read_secret_from_tty-Echoes console h = of_terminals console.terminals h
  where
    of_terminals :
        (terminals : List Terminal)
        → Restore terminals
        → ((read_secret_from_tty (record console { terminals = terminals })).1.echo ≡ console.echo)
          × Restore (read_secret_from_tty (record console { terminals = terminals })).1.terminals
    of_terminals [] h = (refl, h)
    of_terminals (t ∷ rest) (restores, h) = (with_terminal-echo t console.echo restores, h)

read_stdin_line-Echoes : Echoes read_stdin_line
unfolding read_stdin_line
read_stdin_line-Echoes console h = (refl, h)

read_secret_from_pinentry-Echoes :
    (description : Bytes) (repeat_prompt : Option Bytes)
    → Echoes (read_secret_from_pinentry description repeat_prompt)
unfolding read_secret_from_pinentry
read_secret_from_pinentry-Echoes description repeat_prompt console h = of_dialogs console.dialogs
  where
    after : List Dialog → Console
    after dialogs =
        (read_secret_from_pinentry description repeat_prompt
          (record console { dialogs = dialogs })).1

    of_dialogs :
        (dialogs : List Dialog)
        → ((after dialogs).echo ≡ console.echo) × Restore (after dialogs).terminals
    of_dialogs [] = (refl, h)
    of_dialogs (dialog ∷ rest) = (refl, h)

read_twice-Echoes : (read_once : Read Bytes) → Echoes read_once → Echoes (read_twice read_once)
unfolding read_twice
read_twice-Echoes read_once echoes console h =
    let (same, h₁) = echoes console h in
    then_do-post (λ r. (r.1.echo ≡ console.echo) × Restore r.1.terminals) (read_once console) _
      (λ e f. (same, h₁))
      λ first _.
        let (same₂, h₂) = echoes (read_once console).1 h₁ in
        then_do-post (λ r. (r.1.echo ≡ console.echo) × Restore r.1.terminals)
          (read_once (read_once console).1) _ (λ e f. (same₂ ∙ same, h₂))
          (λ second _. (same₂ ∙ same, h₂))

new_pin_from-Echoes :
    (key_name : Bytes) (input : SecretInput) → Echoes (new_pin_from key_name input)
unfolding new_pin_from
new_pin_from-Echoes key_name pinentry =
    read_secret_from_pinentry-Echoes (create_description key_name) (some (codes "Confirm TPM PIN:"))
new_pin_from-Echoes key_name stdin = read_twice-Echoes read_stdin_line read_stdin_line-Echoes
new_pin_from-Echoes key_name terminal =
    read_twice-Echoes read_secret_from_tty read_secret_from_tty-Echoes
new_pin_from-Echoes key_name auto =
    read_twice-Echoes read_secret_from_tty read_secret_from_tty-Echoes

existing_pin_from-Echoes :
    (key_name : Bytes) (input : SecretInput) → Echoes (existing_pin_from key_name input)
unfolding existing_pin_from
existing_pin_from-Echoes key_name pinentry =
    read_secret_from_pinentry-Echoes (authorize_description key_name) none
existing_pin_from-Echoes key_name stdin = read_stdin_line-Echoes
existing_pin_from-Echoes key_name terminal = read_secret_from_tty-Echoes
existing_pin_from-Echoes key_name auto = read_secret_from_tty-Echoes

-- Where the terminal takes its settings back, it echoes after a PIN was read, or could not be read,
-- as it did before, for a new PIN and for an existing one.
pub read_pin-Echoes :
    (graphical : Bool) (key_name : Bytes) (input : SecretInput) (console : Console)
    → Restore console.terminals
    → ((read_new_pin graphical key_name input console).1.echo ≡ console.echo)
      × ((read_existing_pin graphical key_name input console).1.echo ≡ console.echo)
unfolding read_new_pin read_existing_pin
read_pin-Echoes graphical key_name input console h = (
  (new_pin_from-Echoes key_name (resolve_secret_input graphical input) console h).0,
  (existing_pin_from-Echoes key_name (resolve_secret_input graphical input) console h).0,
)

-- ===== src/Cli/SaidLines.antt =====
-- The lines that a dialog is sent while a PIN is read.
use keyvisor.Wire.Utf8.{codes}
use keyvisor.Wire.Endian.{Bytes, AreBytes, IsByte}
use keyvisor.Cli.SentLines.{Says, AreLines, read_secret_from_pinentry-Says}
use keyvisor.Cli.Secrets.{
  read_twice, quoted, create_description, authorize_description, new_pin_from, existing_pin_from,
  read_new_pin, read_existing_pin,
}
use keyvisor.Cli.Console.{
  read_secret_from_tty, read_stdin_line, Read, Terminal, Console, resolve_secret_input,
}
use keyvisor.Prelude.{Bool, none, some, List, [], ◌∷◌, ◌++◌, arith, All-append, then_do-post}
use keyvisor.Cli.Arguments.{auto, terminal, pinentry, stdin, SecretInput}

read_secret_from_tty-Says : Says read_secret_from_tty
unfolding read_secret_from_tty
read_secret_from_tty-Says console h = of_terminals console.terminals
  where
    of_terminals :
        (terminals : List Terminal)
        → AreLines (read_secret_from_tty (record console { terminals = terminals })).1.sent
    of_terminals [] = h
    of_terminals (t ∷ rest) = h

read_stdin_line-Says : Says read_stdin_line
unfolding read_stdin_line
read_stdin_line-Says console h = h

read_twice-Says : (read_once : Read Bytes) → Says read_once → Says (read_twice read_once)
unfolding read_twice
read_twice-Says read_once says console h =
    then_do-post (λ r. AreLines r.1.sent) (read_once console) _ (λ e f. says console h)
      λ first _.
        let h₂ = says (read_once console).1 (says console h) in
        then_do-post (λ r. AreLines r.1.sent) (read_once (read_once console).1) _ (λ e f. h₂)
          (λ second _. h₂)

quoted-AreBytes : (name : Bytes) → AreBytes name → AreBytes (quoted name)
unfolding quoted
quoted-AreBytes name all =
    (omega arith, (omega arith, (omega arith, All-append IsByte name _ all (omega arith))))

create_description-AreBytes : (name : Bytes) → AreBytes name → AreBytes (create_description name)
unfolding create_description
create_description-AreBytes name all =
    All-append IsByte (codes "Create TPM-protected key " ++ quoted name) (codes ".")
      (All-append IsByte (codes "Create TPM-protected key ") (quoted name) (omega arith)
        (quoted-AreBytes name all))
      (omega arith)

authorize_description-AreBytes :
    (name : Bytes) → AreBytes name → AreBytes (authorize_description name)
unfolding authorize_description
authorize_description-AreBytes name all =
    All-append IsByte (codes "Authorize TPM-protected SSH signature with key " ++ quoted name)
      (codes ".")
      (All-append IsByte (codes "Authorize TPM-protected SSH signature with key ") (quoted name)
        (omega arith) (quoted-AreBytes name all))
      (omega arith)

new_pin_from-Says :
    (key_name : Bytes) (source : SecretInput)
    → AreBytes key_name
    → Says (new_pin_from key_name source)
unfolding new_pin_from
new_pin_from-Says key_name pinentry all =
    read_secret_from_pinentry-Says (create_description key_name) (some (codes "Confirm TPM PIN:"))
      (create_description-AreBytes key_name all) (omega arith)
new_pin_from-Says key_name stdin all = read_twice-Says read_stdin_line read_stdin_line-Says
new_pin_from-Says key_name terminal all =
    read_twice-Says read_secret_from_tty read_secret_from_tty-Says
new_pin_from-Says key_name auto all = read_twice-Says read_secret_from_tty read_secret_from_tty-Says

existing_pin_from-Says :
    (key_name : Bytes) (source : SecretInput)
    → AreBytes key_name
    → Says (existing_pin_from key_name source)
unfolding existing_pin_from
existing_pin_from-Says key_name pinentry all =
    read_secret_from_pinentry-Says (authorize_description key_name) none
      (authorize_description-AreBytes key_name all) tt
existing_pin_from-Says key_name stdin all = read_stdin_line-Says
existing_pin_from-Says key_name terminal all = read_secret_from_tty-Says
existing_pin_from-Says key_name auto all = read_secret_from_tty-Says

-- Whatever bytes the key's name has, each command that a dialog is sent while a PIN is read is one
-- line, as those sent before are, so no name adds a command.
pub read_pin-Says :
    (graphical : Bool) (key_name : Bytes) (input : SecretInput) (console : Console)
    → AreBytes key_name
    → AreLines console.sent
    → AreLines (read_new_pin graphical key_name input console).1.sent
      × AreLines (read_existing_pin graphical key_name input console).1.sent
unfolding read_new_pin read_existing_pin
read_pin-Says graphical key_name input console all h = (
  new_pin_from-Says key_name (resolve_secret_input graphical input) all console h,
  existing_pin_from-Says key_name (resolve_secret_input graphical input) all console h,
)

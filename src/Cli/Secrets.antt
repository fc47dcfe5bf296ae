-- ===== src/Cli/Secrets.antt =====
-- `read_new_pin` and `read_existing_pin`: the sources of a PIN.
use keyvisor.Cli.Defs.{CliError, pin_mismatch}
use keyvisor.Wire.Utf8.{codes}
use keyvisor.Cli.Dialog.{read_secret_from_pinentry}
use keyvisor.Cli.Console.{Read, resolve_secret_input, read_secret_from_tty, read_stdin_line}
use keyvisor.Wire.Endian.{Bytes}
use keyvisor.Prelude.{
  Bool, none, some, [], ◌∷◌, ◌++◌, if◌then◌else◌, bytes_eq, Result, ok, err, then_do,
}
use keyvisor.Cli.Arguments.{auto, terminal, pinentry, stdin, SecretInput}

-- `“{name}”`, in UTF-8.
unfoldable pub quoted : Bytes → Bytes
quoted name = 0xe2 ∷ 0x80 ∷ 0x9c ∷ (name ++ 0xe2 ∷ 0x80 ∷ 0x9d ∷ [])

unfoldable pub create_description : Bytes → Bytes
unfolding quoted
create_description key_name = codes "Create TPM-protected key " ++ quoted key_name ++ codes "."

-- The context that `authorize_request` gives, in the sentence of `read_existing_pin`.
unfoldable pub authorize_description : Bytes → Bytes
unfolding quoted
authorize_description key_name =
    codes "Authorize TPM-protected SSH signature with key " ++ quoted key_name ++ codes "."

-- The two readings of a new PIN agree.
unfoldable pub confirmed_pin : Bytes → Bytes → Result CliError Bytes
confirmed_pin first second = if bytes_eq first second then ok first else err pin_mismatch

unfoldable pub read_twice : Read Bytes → Read Bytes
unfolding confirmed_pin
read_twice read_once console =
    then_do (read_once console)
      λ first c₁. then_do (read_once c₁) λ second c₂. (confirmed_pin first second, c₂)

unfoldable pub new_pin_from : Bytes → SecretInput → Read Bytes
unfolding read_secret_from_pinentry create_description read_twice read_secret_from_tty
    read_stdin_line
new_pin_from key_name pinentry =
    read_secret_from_pinentry (create_description key_name) (some (codes "Confirm TPM PIN:"))
new_pin_from key_name stdin = read_twice read_stdin_line
new_pin_from key_name terminal = read_twice read_secret_from_tty
new_pin_from key_name auto = read_twice read_secret_from_tty

unfoldable pub existing_pin_from : Bytes → SecretInput → Read Bytes
unfolding read_secret_from_pinentry authorize_description read_secret_from_tty read_stdin_line
existing_pin_from key_name pinentry =
    read_secret_from_pinentry (authorize_description key_name) none
existing_pin_from key_name stdin = read_stdin_line
existing_pin_from key_name terminal = read_secret_from_tty
existing_pin_from key_name auto = read_secret_from_tty

-- Whether a graphical session is available comes first.
module _ (graphical : Bool) where
  unfoldable pub read_new_pin : Bytes → SecretInput → Read Bytes
  unfolding new_pin_from resolve_secret_input
  read_new_pin key_name input = new_pin_from key_name (resolve_secret_input graphical input)

  unfoldable pub read_existing_pin : Bytes → SecretInput → Read Bytes
  unfolding existing_pin_from resolve_secret_input
  read_existing_pin key_name input =
      existing_pin_from key_name (resolve_secret_input graphical input)

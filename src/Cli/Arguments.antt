-- ===== src/Cli/Arguments.antt =====
-- The options of the commands: `create_key`, `parse_format` and `set_secret_input`.
use keyvisor.Tpm.Defs.{invalid_authorization}
use keyvisor.Wire.Utf8.{from_utf8, codes}
use keyvisor.Wire.Trim.{trim}
use keyvisor.Core.{ecdsa_nist_p256, KeyUsePolicy, KeyAlgorithm, ecdsa_nist_p384, no_pin, tpm_pin}
use keyvisor.Wire.Endian.{Bytes}
use keyvisor.Cli.Defs.{
  CliError, exclusive_options, invalid_format, not_utf8, invalid_arguments, usage,
  invalid_algorithm, invalid_authorization,
}
use keyvisor.Prelude.{
  Bool, true, false, ◌&&◌, Option, none, some, List, [], ◌∷◌, if◌then◌else◌, bytes_eq, Result, ok,
  err, ◌>>=◌,
}

pub data SecretInput : Type 0 where
  auto terminal pinentry stdin : SecretInput

pub data OutputFormat : Type 0 where
  human tsv : OutputFormat

-- `*current` after the call, where it does not fail.
unfoldable pub set_secret_input : SecretInput → SecretInput → Result CliError SecretInput
set_secret_input auto requested = ok requested
set_secret_input _ requested = err exclusive_options

unfoldable pub os_text : Bytes → Result CliError Bytes
os_text value = from_utf8 not_utf8 value

unfoldable pub parse_format : List Bytes → Result CliError OutputFormat
parse_format [] = ok human
parse_format (flag ∷ []) = err invalid_format
parse_format (flag ∷ value ∷ []) =
    if bytes_eq flag (codes "--format") && bytes_eq value (codes "human")
    then ok human
    else if bytes_eq flag (codes "--format") && bytes_eq value (codes "tsv")
    then ok tsv
    else err invalid_format
parse_format (flag ∷ value ∷ more ∷ rest) = err invalid_format

-- The variables of the loop of `create_key`.
pub record CreateOptions : Type 0 where
  pub name : Option Bytes
  pub policy : Option KeyUsePolicy
  pub algorithm : KeyAlgorithm
  pub confirmed : Bool
  pub secret_input : SecretInput

abbrev pub initial : CreateOptions
initial = record {
  name = none;
  policy = none;
  algorithm = ecdsa_nist_p256;
  confirmed = false;
  secret_input = auto;
}

-- The options that take the argument after them.
pub data Valued : Type 0 where
  name_option algorithm_option authorization_option : Valued

unfoldable pub valued_option : Bytes → Option Valued
valued_option flag =
    if bytes_eq flag (codes "--name")
    then some name_option
    else if bytes_eq flag (codes "--algorithm")
    then some algorithm_option
    else if bytes_eq flag (codes "--authorization")
    then some authorization_option
    else none

unfoldable pub parse_algorithm : Bytes → Result CliError KeyAlgorithm
parse_algorithm value =
    if bytes_eq value (codes "ecdsa-p256")
    then ok ecdsa_nist_p256
    else if bytes_eq value (codes "ecdsa-p384")
    then ok ecdsa_nist_p384
    else err invalid_algorithm

unfoldable pub parse_authorization : Bytes → Result CliError KeyUsePolicy
parse_authorization value =
    if bytes_eq value (codes "none")
    then ok no_pin
    else if bytes_eq value (codes "pin")
    then ok tpm_pin
    else err invalid_authorization

unfoldable pub set_value : Valued → CreateOptions → Bytes → Result CliError CreateOptions
unfolding os_text parse_algorithm parse_authorization trim
set_value name_option options value = do
  text ← os_text value
  ok (record options { name = some (trim text) })
set_value algorithm_option options value = do
  algorithm ← parse_algorithm value
  ok (record options { algorithm = algorithm })
set_value authorization_option options value = do
  policy ← parse_authorization value
  ok (record options { policy = some policy })

unfoldable pub set_input : CreateOptions → SecretInput → Result CliError CreateOptions
unfolding set_secret_input
set_input options requested = do
  secret_input ← set_secret_input options.secret_input requested
  ok (record options { secret_input = secret_input })

-- The arms of an argument that stands alone.
unfoldable pub set_flag : CreateOptions → Bytes → Result CliError CreateOptions
unfolding set_input
set_flag options flag =
    if bytes_eq flag (codes "--yes")
    then ok (record options { confirmed = true })
    else if bytes_eq flag (codes "--pin-stdin")
    then set_input options stdin
    else if bytes_eq flag (codes "--pinentry")
    then set_input options pinentry
    else if bytes_eq flag (codes "--terminal")
    then set_input options terminal
    else err invalid_arguments

-- The `while` loop over the arguments.
unfoldable pub create_options : CreateOptions → List Bytes → Result CliError CreateOptions
unfolding valued_option set_value set_flag
create_options options [] = ok options
create_options options (flag ∷ []) = set_flag options flag
create_options options (flag ∷ value ∷ rest) = elim (valued_option flag) [
  | some option ↦ set_value option options value >>= λ options'. create_options options' rest
  | none ↦ set_flag options flag >>= λ options'. create_options options' (value ∷ rest)
]

-- One argument of `authorize`: the source of the PIN, or the identifier where there is none yet.
unfoldable pub authorize_argument :
    Option Bytes → SecretInput → Bytes → Result CliError (Option Bytes × SecretInput)
unfolding set_secret_input os_text
authorize_argument id secret_input argument =
    let with_input : SecretInput → Result CliError (Option Bytes × SecretInput) =
      λ requested. set_secret_input secret_input requested >>= (λ i. ok (id, i)) in
    if bytes_eq argument (codes "--pin-stdin")
    then with_input stdin
    else if bytes_eq argument (codes "--pinentry")
    then with_input pinentry
    else if bytes_eq argument (codes "--terminal")
    then with_input terminal
    else elim id [
      | none ↦ os_text argument >>= (λ text. ok (some text, secret_input))
      | some known ↦ err usage
    ]

unfoldable pub authorize_options :
    Option Bytes → SecretInput → List Bytes → Result CliError (Option Bytes × SecretInput)
authorize_options id secret_input [] = ok (id, secret_input)
authorize_options id secret_input (argument ∷ rest) = do
  (id', secret_input') ← authorize_argument id secret_input argument
  authorize_options id' secret_input' rest

-- `delete ID [--yes]`
unfoldable pub delete_options : List Bytes → Result CliError (Bytes × Bool)
delete_options (id ∷ []) = ok (id, false)
delete_options (id ∷ flag ∷ []) = if bytes_eq flag (codes "--yes") then ok (id, true) else err usage
delete_options [] = err usage
delete_options (id ∷ flag ∷ more ∷ rest) = err usage

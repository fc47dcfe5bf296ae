-- ===== src/Cli/Create.antt =====
-- `create_key`: the options, the PIN, the key in the TPM, and its record in the store.
use keyvisor.Tpm.Generate.{generate}
use keyvisor.Tpm.Defs.{TpmError, TpmAuthorization, TpmObject, no_authorization, pin}
use keyvisor.Files.Paths.{FilePath}
use keyvisor.Files.Defs.{Files}
use keyvisor.Tpm.Tss.{Tss}
use keyvisor.Cli.Secrets.{read_new_pin}
use keyvisor.Cli.Control.{ok_or}
use keyvisor.Wire.Endian.{Bytes}
use keyvisor.Cli.Defs.{
  CliError, name_required, name_length, pin_options_without_pin, authorization_required, tpm_failed,
  store_failed,
}
use keyvisor.Cli.Console.{Console, require_confirmation, Read}
use keyvisor.Prelude.{
  ℕ, ◌*◌, Bool, true, false, not, ◌||◌, List, [], ◌∷◌, ◌++◌, ltb, if◌then◌else◌, length, is_empty,
  Result, ok, ◌>>=◌, ◌>>◌, fail_if, map_err, then_do,
}
use keyvisor.Cli.Arguments.{
  auto, terminal, pinentry, stdin, SecretInput, CreateOptions, create_options, initial,
}
use keyvisor.Core.{no_pin, tpm_pin, KeyUsePolicy, KeySummary, KeyAlgorithm, as_str}
use keyvisor.Store.Ops.{save}

-- The state of the commands: where secrets are read, the files, and the lines printed so far.
pub record Shell : Type 0 where
  pub console : Console
  pub files : Files
  pub printed : List Bytes

-- What the environment of the process decides.
pub record Setup : Type 0 where
  pub graphical : Bool
  pub process : ℕ
  pub store : Result CliError FilePath
  pub history : Result CliError FilePath
  pub config : Result CliError FilePath

unfoldable pub ask {ℓ} :
    {S : Type 0} {A : Type ℓ}
    → Result CliError A × Console
    → Shell × S
    → Result CliError A × (Shell × S)
ask (r, console) (shell, s) = (r, (record shell { console = console }, s))

unfoldable pub println : {S : Type 0} → Bytes → Shell × S → Result CliError (Unit {0}) × (Shell × S)
println line (shell, s) = (ok tt, (record shell { printed = shell.printed ++ line ∷ [] }, s))

-- The checks after the loop.
unfoldable pub check_options : CreateOptions → Result CliError (Bytes × KeyUsePolicy)
unfolding ok_or
check_options options = do
  name ← ok_or name_required options.name
  fail_if (is_empty name || ltb (4 * 1024) (length name)) name_length
  policy ← ok_or authorization_required options.policy
  ok (name, policy)

abbrev pub is_auto : SecretInput → Bool
is_auto auto = true
is_auto terminal = false
is_auto pinentry = false
is_auto stdin = false

-- A key without a PIN is confirmed, by an option or by an answer, and takes no source of a PIN.
unfoldable pub confirm_no_pin : KeyUsePolicy → CreateOptions → Read (Unit {0})
unfolding require_confirmation
confirm_no_pin tpm_pin options console = (ok tt, console)
confirm_no_pin no_pin options console =
    then_do (if options.confirmed then (ok tt, console) else require_confirmation console)
      λ _ c. (fail_if (not (is_auto options.secret_input)) pin_options_without_pin, c)

unfoldable pub new_authorization : Bool → Bytes → KeyUsePolicy → SecretInput → Read TpmAuthorization
unfolding read_new_pin
new_authorization graphical name no_pin input console = (ok no_authorization, console)
new_authorization graphical name tpm_pin input console =
    then_do (read_new_pin graphical name input console) λ secret c. (ok (pin secret), c)

-- The TPM library, and the handle and the name that `connect_default` comes to.
module _ (t : Tss) (connected : Result TpmError (ℕ × Bytes)) (setup : Setup) where
  abbrev pub Command : Type 0 → Type 0
  Command A = Shell × t.State → Result CliError A × (Shell × t.State)

  unfoldable pub generate_key :
      Bytes → KeyAlgorithm → TpmAuthorization → ℕ × Bytes → Command (KeySummary × TpmObject)
  unfolding generate
  generate_key name algorithm given (parent, parent_name) (shell, s) =
      let (r, s') = generate t parent parent_name name algorithm given s in
      (map_err tpm_failed r, (shell, s'))

  unfoldable pub save_key : FilePath → KeySummary × TpmObject → Command (Unit {0})
  unfolding save
  save_key store (summary, object) (shell, s) =
      let (r, files) =
        save store setup.process (record { summary = summary; object = object }) shell.files in
      (map_err store_failed r, (record shell { files = files }, s))

  -- From the authorization on.
  unfoldable pub make_key : Bytes → KeyAlgorithm → TpmAuthorization → Command (Unit {0})
  unfolding generate_key save_key println
  make_key name algorithm given w =
      then_do (map_err tpm_failed connected, w)
        λ parent w₁. then_do (generate_key name algorithm given parent w₁) λ made w₂.
          then_do (setup.store, w₂)
            λ store w₃. then_do (save_key store made w₃) λ _ w₄. println (as_str made.0.id) w₄

  unfoldable pub create_key : List Bytes → Command (Unit {0})
  unfolding create_options check_options ask confirm_no_pin new_authorization make_key
  create_key arguments w =
      then_do (create_options initial arguments, w)
        λ options w₁.
          then_do (check_options options, w₁)
            λ (name, policy) w₂.
              then_do (ask (confirm_no_pin policy options w₂.0.console) w₂) λ _ w₃.
                then_do
                  (ask
                    (new_authorization setup.graphical name policy options.secret_input
                      w₃.0.console)
                    w₃)
                  λ given w₄. make_key name options.algorithm given w₄

-- ===== src/Cli/Commands.antt =====
-- `key list`, `key show`, `key delete`, `config` and `history` over the files.
use keyvisor.Wire.Decimal.{to_string}
use keyvisor.Core.{as_str}
use keyvisor.Wire.Utf8.{codes}
use keyvisor.Cli.Control.{ok_or}
use keyvisor.Store.Defs.{StoredKey}
use keyvisor.Files.Defs.{Files}
use keyvisor.Cli.Tables.{Encoders, show_lines, entry_lines, key_lines}
use keyvisor.Files.Paths.{FilePath}
use keyvisor.Cli.Arguments.{os_text, delete_options, parse_format}
use keyvisor.Wire.Endian.{Bytes}
use keyvisor.Cli.Console.{Read, require_confirmation}
use keyvisor.Cli.Defs.{
  CliError, config_failed, unknown_setting, invalid_config_command, store_failed, key_not_found,
  history_failed,
}
use keyvisor.Cli.Create.{Shell, Setup}
use keyvisor.Prelude.{
  ℕ, true, false, Option, none, some, List, [], ◌∷◌, ◌++◌, if◌then◌else◌, bytes_eq, Result, ok, err,
  map_err, then_do,
}
use keyvisor.Config.Ops.{load, save}
use keyvisor.Config.Defs.{get, set, bool_to_string, Config}
use keyvisor.Store.Ops.{delete}
use keyvisor.Store.Listing
use keyvisor.History.Ops

abbrev pub Run : Type 0 → Type 0
Run A = Shell → Result CliError A × Shell

unfoldable pub on_files : {E A : Type 0} → (E → CliError) → (Files → Result E A × Files) → Run A
on_files failed operation shell =
    let (r, files) = operation shell.files in (map_err failed r, record shell { files = files })

unfoldable pub on_console : {A : Type 0} → Read A → Run A
on_console read_once shell =
    let (r, console) = read_once shell.console in (r, record shell { console = console })

unfoldable pub print_lines : List Bytes → Run (Unit {0})
print_lines lines' shell = (ok tt, record shell { printed = shell.printed ++ lines' })

-- `into_iter().find(|key| key.summary.id.as_str() == id)`
unfoldable pub find_id : Bytes → List StoredKey → Option StoredKey
find_id id [] = none
find_id id (key ∷ keys) = if bytes_eq (as_str key.summary.id) id then some key else find_id id keys

-- `print_config`
unfoldable pub config_lines : Config → List Bytes
unfolding bool_to_string
config_lines config =
    (codes "authorization-timeout-seconds=" ++ to_string config.authorization_timeout_seconds)
    ∷ (codes "history-enabled=" ++ bool_to_string config.history_enabled)
    ∷ []

unfoldable pub config_get : FilePath → Bytes → Run (Unit {0})
unfolding on_files print_lines os_text ok_or load get
config_get path name' shell =
    then_do (os_text name', shell)
      λ name sh₁. then_do (on_files config_failed (load path) sh₁) λ config sh₂.
        then_do (ok_or unknown_setting (get config name), sh₂)
          λ value sh₃. print_lines (value ∷ []) sh₃

unfoldable pub config_set : ℕ → FilePath → Bytes → Bytes → Run (Unit {0})
unfolding on_files print_lines os_text load set save
config_set process path name' value' shell =
    then_do (os_text name', shell)
      λ name sh₁.
        then_do (os_text value', sh₁)
          λ value sh₂. then_do (on_files config_failed (load path) sh₂) λ config sh₃.
            then_do (map_err config_failed (set config name value), sh₃)
              λ config' sh₄.
                then_do (on_files config_failed (save path process config') sh₄)
                  λ _ sh₅. print_lines ((name ++ b'=' ∷ value) ∷ []) sh₅

unfoldable pub config_command : ℕ → FilePath → List Bytes → Run (Unit {0})
unfolding on_files print_lines config_lines config_get config_set load
config_command process path (command ∷ []) shell = elim (bytes_eq command (codes "list")) [
  | true ↦
      then_do (on_files config_failed (load path) shell)
        (λ config sh. print_lines (config_lines config) sh)
  | false ↦ (err invalid_config_command, shell)
]
config_command process path (command ∷ name ∷ []) shell = elim (bytes_eq command (codes "get")) [
  | true ↦ config_get path name shell
  | false ↦ (err invalid_config_command, shell)
]
config_command process path (command ∷ name ∷ value ∷ []) shell =
    elim (bytes_eq command (codes "set")) [
      | true ↦ config_set process path name value shell
      | false ↦ (err invalid_config_command, shell)
    ]
config_command process path [] shell = (err invalid_config_command, shell)
config_command process path (command ∷ name ∷ value ∷ more ∷ rest) shell =
    (err invalid_config_command, shell)

module _ (setup : Setup) where
  unfoldable pub find_key : Bytes → Run StoredKey
  unfolding on_files find_id ok_or keyvisor.Store.Listing.list
  find_key id shell =
      then_do (setup.store, shell)
        λ store sh₁.
          then_do (on_files store_failed (keyvisor.Store.Listing.list store) sh₁)
            λ keys sh₂. (ok_or key_not_found (find_id id keys), sh₂)

  unfoldable pub delete_key : List Bytes → Run (Unit {0})
  unfolding delete_options os_text find_key on_console require_confirmation on_files delete
  delete_key arguments shell =
      then_do (delete_options arguments, shell)
        λ (id', confirmed) sh₁.
          then_do (os_text id', sh₁)
            λ id sh₂. then_do (find_key id sh₂) λ key sh₃.
              then_do (if confirmed then (ok tt, sh₃) else on_console require_confirmation sh₃)
                λ _ sh₄.
                  then_do (setup.store, sh₄)
                    λ store sh₅. on_files store_failed (delete store key.summary.id) sh₅

  unfoldable pub run_config : List Bytes → Run (Unit {0})
  unfolding config_command
  run_config arguments shell =
      then_do (setup.config, shell) λ path sh. config_command setup.process path arguments sh

  unfoldable pub run_history : List Bytes → Run (Unit {0})
  unfolding parse_format on_files print_lines entry_lines keyvisor.History.Ops.list
  run_history arguments shell =
      then_do (parse_format arguments, shell)
        λ format sh₁.
          then_do (setup.history, sh₁)
            λ path sh₂.
              then_do (on_files history_failed (keyvisor.History.Ops.list path) sh₂)
                λ entries sh₃. print_lines (entry_lines format entries) sh₃

module _ (encoders : Encoders) (setup : Setup) where
  unfoldable pub list_keys : List Bytes → Run (Unit {0})
  unfolding parse_format on_files print_lines key_lines keyvisor.Store.Listing.list
  list_keys arguments shell =
      then_do (parse_format arguments, shell)
        λ format sh₁.
          then_do (setup.store, sh₁)
            λ store sh₂.
              then_do (on_files store_failed (keyvisor.Store.Listing.list store) sh₂)
                λ keys sh₃. print_lines (key_lines encoders format keys) sh₃

  unfoldable pub show_key : Bytes → Run (Unit {0})
  unfolding os_text find_key print_lines show_lines
  show_key id' shell =
      then_do (os_text id', shell)
        λ id sh₁.
          then_do (find_key setup id sh₁) λ key sh₂. print_lines (show_lines encoders key) sh₂

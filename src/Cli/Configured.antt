-- ===== src/Cli/Configured.antt =====
-- `config get` after `config set`.
use keyvisor.Config.Saved.{load-save_config}
use keyvisor.Config.File.{parse-IsValid}
use keyvisor.Cli.Defs.{not_utf8, config_failed, unknown_setting}
use keyvisor.Wire.Decimal.{to_string}
use keyvisor.Wire.Utf8.{from_utf8, IsText, from_utf8-IsText, from_utf8-eq-ok}
use keyvisor.Cli.Control.{ok_or}
use keyvisor.Files.Save.{temporary_path}
use keyvisor.Cli.Arguments.{os_text}
use keyvisor.History.Ops.{is_shared, parent}
use keyvisor.Cli.Commands.{config_set, config_get, on_files, print_lines}
use keyvisor.Cli.Create.{Shell}
use keyvisor.Wire.Endian.{Bytes}
use keyvisor.Files.Defs.{
  not_found, already_exists, invalid_input, permission_denied, other, directory, file, special,
  calm, read,
}
use keyvisor.Files.Defs.{Files, IoError, Node, symlink_metadata}
use keyvisor.Files.Paths.{FilePath}
use keyvisor.Config.Settings.{IsValid, set-IsValid, IsShown, set-IsShown}
use keyvisor.Prelude.{
  ℕ, ◌≡◌, refl, sym, ap, ◌∙◌, subst, ◌≢◌, inl, inr, some, [], ◌∷◌, ◌++◌, arith, Bool-cases,
  bytes_eq, Result, ok, err, map_err, ok-injective, then_do-eq, map_err-eq-ok, then_do-ok,
}
use keyvisor.Config.Ops.{load, save, load_found, temporary_name, from_io, invalid_text}
use keyvisor.Config.Defs.{get, set, default, Config, timeout_name, history_name, bool_to_string}

default-IsValid : IsValid default
default-IsValid = record { at_least = omega arith; at_most = omega arith }

read-IsValid :
    (path : FilePath) (mode : ℕ) (bytes : Bytes) (fs : Files) {config : Config}
    → (load_found path (ok (file mode bytes)) fs).0 ≡ ok config
    → IsValid config
unfolding load_found
read-IsValid path mode bytes fs {config} h = elim (Bool-cases (is_shared mode)) [
  | inl shared ↦ let failed = rw (load_found, shared) at h in cc
  | inr private ↦
      let (found, e₁, f₁, h₁) =
        then_do-ok (from_io (read path) fs) _ (rw (load_found, private) at h) in
      let (text, e₂, f₂, h₂) =
        then_do-ok (from_utf8 invalid_text found, (from_io (read path) fs).1) _ h₁ in
      (parse-IsValid text config h₂).0
]

load-IsValid :
    (path : FilePath) (fs : Files) {config : Config} → (load path fs).0 ≡ ok config → IsValid config
unfolding load
load-IsValid path fs {config} h =
    of_found (symlink_metadata path fs).0 (symlink_metadata path fs).1 h
  where
    of_found :
        (r : Result IoError Node) (fs' : Files)
        → (load_found path r fs').0 ≡ ok config
        → IsValid config
    of_found (err not_found) fs' h =
        unfold load_found in subst IsValid (ok-injective h) default-IsValid
    of_found (err already_exists) fs' h = unfold load_found in cc
    of_found (err invalid_input) fs' h = unfold load_found in cc
    of_found (err permission_denied) fs' h = unfold load_found in cc
    of_found (err (other n)) fs' h = unfold load_found in cc
    of_found (ok (directory mode)) fs' h = unfold load_found in cc
    of_found (ok (special s)) fs' h = unfold load_found in cc
    of_found (ok (file mode bytes)) fs' h = read-IsValid path mode bytes fs' h

-- What is set can be printed.
get-set-some :
    (config : Config) (name value : Bytes) {config' : Config}
    → set config name value ≡ ok config'
    → (text : Bytes) × (get config' name ≡ some text)
unfolding set get
get-set-some config name value {config'} h = elim (Bool-cases (bytes_eq name timeout_name)) [
  | inl e ↦ (to_string config'.authorization_timeout_seconds, rw (get, e) refl)
  | inr e ↦ elim (Bool-cases (bytes_eq name history_name)) [
    | inl e' ↦ (bool_to_string config'.history_enabled, rw (get, e, e') refl)
    | inr e' ↦ let failed = rw (set, e, e') at h in cc
  ]
]

-- What `config get` does with settings that are loaded.
config_get-eq :
    (path : FilePath) (name text : Bytes) (config : Config) (shell : Shell)
    → IsText name
    → (load path shell.files).0 ≡ ok config
    → get config name ≡ some text
    → ((config_get path name shell).0 ≡ ok tt)
      × ((config_get path name shell).1.printed ≡ shell.printed ++ text ∷ [])
unfolding config_get on_files print_lines os_text ok_or
config_get-eq path name text config shell valid loaded known =
    let all =
      then_do-eq (from_utf8 not_utf8 name, shell) _ (from_utf8-IsText not_utf8 name valid)
      ∙ then_do-eq (on_files config_failed (load path) shell) _ (ap (map_err config_failed) loaded)
      ∙ then_do-eq (ok_or unknown_setting (get config name), _) _
          (ap (ok_or unknown_setting) known) in
    (ap (λ r. r.0) all, ap (λ r. r.1.printed) all)

-- A shell where no call of the file system fails.
abbrev pub calm_shell : Shell → Shell
calm_shell shell = record shell { files = calm shell.files }

-- A run of `config set` that succeeds, of a file below its directory, has set the value in the
-- settings that it loaded, and a run of `config get` for the same name after it, where no call
-- fails, prints the value: of the history setting the `true` or `false` that was set, of the timeout
-- the number from 10 to 120 that the value reads as.
pub config_get-config_set :
    (process : ℕ) (path directory' : FilePath) (name value : Bytes) (shell : Shell)
    → parent path ≡ some directory'
    → ((k : ℕ) → temporary_path directory' (temporary_name process) k ≢ path)
    → (config_set process path name value shell).0 ≡ ok tt
    → (config : Config) × (config' : Config) × (text : Bytes) × ((load path shell.files).0
        ≡ ok config)
      × (set config name value ≡ ok config')
      × (get config' name ≡ some text)
      × IsShown name value text
      × ((config_get path name (calm_shell (config_set process path name value shell).1)).0 ≡ ok tt)
      × ((config_get path name (calm_shell (config_set process path name value shell).1)).1.printed
          ≡ (config_set process path name value shell).1.printed ++ text ∷ [])
unfolding config_set config_get os_text on_files print_lines
config_get-config_set process path directory' name value shell has_parent apart h =
    let (name₁, e₁, f₁, h₁) = then_do-ok (from_utf8 not_utf8 name, shell) _ h in
    let (value₁, e₂, f₂, h₂) = then_do-ok (from_utf8 not_utf8 value, shell) _ h₁ in
    let (config, e₃, f₃, h₃) = then_do-ok (on_files config_failed (load path) shell) _ h₂ in
    let sh₃ = (on_files config_failed (load path) shell).1 in
    let (config', e₄, f₄, h₄) =
      then_do-ok (map_err config_failed (set config name₁ value₁), sh₃) _ h₃ in
    let (u, e₅, f₅, h₅) =
      then_do-ok (on_files config_failed (save path process config') sh₃) _ h₄ in
    let (text_name, same_name) = from_utf8-eq-ok not_utf8 name e₁ in
    let (_, same_value) = from_utf8-eq-ok not_utf8 value e₂ in
    let loaded = map_err-eq-ok config_failed _ e₃ in
    let made : set config name value ≡ ok config' =
      ap (λ n. set config n value) (sym same_name)
      ∙ ap (λ v. set config name₁ v) (sym same_value)
      ∙ map_err-eq-ok config_failed _ e₄ in
    let (text, known) = get-set-some config name value made in
    let valid =
      (set-IsValid config name value config' made (load-IsValid path shell.files loaded)).0 in
    let final = f₁ ∙ f₂ ∙ f₃ ∙ f₄ ∙ f₅ in
    let stored =
      load-save_config path directory' process config' sh₃.files has_parent apart valid
        (map_err-eq-ok config_failed _ e₅) in
    let (done, shown) =
      config_get-eq path name text config' (calm_shell (config_set process path name value shell).1)
        text_name (ap (λ r. (load path (calm r.1.files)).0) final ∙ stored) known in
    (
      config,
      config',
      text,
      loaded,
      made,
      known,
      set-IsShown config name value config' text made known,
      done,
      shown,
    )

-- ===== src/Config/Ops.antt =====
-- `ConfigStore`: load and save over the file system.
use keyvisor.Files.Save.{save_bytes}
use keyvisor.Wire.Decimal.{to_string}
use keyvisor.Wire.Utf8.{codes, from_utf8}
use keyvisor.Files.Paths.{FilePath}
use keyvisor.Wire.Endian.{Bytes}
use keyvisor.Prelude.{
  ℕ, Option, none, some, ◌∷◌, ◌++◌, if◌then◌else◌, Result, ok, err, fail_if, map_err, then_do,
}
use keyvisor.Files.Defs.{
  IoError, Node, file, directory, special, Io, not_found, other, symlink_metadata, create_directory,
  read, set_permissions,
}
use keyvisor.Config.Defs.{Config, ConfigError, io, invalid_data, parse, print, default}
use keyvisor.History.Ops.{parent, is_shared}

-- The `From<io::Error>` of `?`.
unfoldable pub from_io {ℓ} : {A : Type ℓ} → Io IoError A → Io ConfigError A
from_io m fs = (map_err io (m fs).0, (m fs).1)

-- `read_to_string` of a text that is not UTF-8.
abbrev pub invalid_text : ConfigError
invalid_text = io (other 84)

-- `format!(".config.{}.{}.tmp", process::id(), attempt)`
unfoldable pub temporary_name : ℕ → ℕ → Bytes
temporary_name process attempt =
    codes ".config." ++ (to_string process ++ b'.' ∷ (to_string attempt ++ codes ".tmp"))

-- A directory that exists must be private already; one that does not is created, by the default
-- mode less a umask that is not in the model, and made so.
unfoldable pub directory_found : FilePath → Result IoError Node → Io ConfigError (Unit {0})
directory_found path (ok (file mode bytes)) fs = (err invalid_data, fs)
directory_found path (ok (special s)) fs = (err invalid_data, fs)
directory_found path (ok (directory mode)) fs = (fail_if (is_shared mode) invalid_data, fs)
directory_found path (err not_found) fs =
    then_do {0, 0} (from_io (create_directory 0o777 path) fs)
      (λ _ fs'. from_io (set_permissions 0o700 path) fs')
directory_found path (err e) fs = (err (io e), fs)

unfoldable pub ensure_private_directory : FilePath → Io ConfigError (Unit {0})
unfolding directory_found
ensure_private_directory path fs =
    directory_found path (symlink_metadata path fs).0 (symlink_metadata path fs).1

module _ (path : FilePath) where
  -- `load` once it has looked at the path.
  unfoldable pub load_found : Result IoError Node → Io ConfigError Config
  unfolding from_io
  load_found (err not_found) fs = (ok default, fs)
  load_found (err e) fs = (err (io e), fs)
  load_found (ok (directory mode)) fs = (err invalid_data, fs)
  load_found (ok (special s)) fs = (err invalid_data, fs)
  load_found (ok (file mode bytes)) fs =
      if is_shared mode
      then (err invalid_data, fs)
      else then_do {0, 0} (from_io (read path) fs) λ found fs₁.
        then_do {0, 0} (from_utf8 invalid_text found, fs₁) (λ contents' fs₂. (parse contents', fs₂))

  unfoldable pub load : Io ConfigError Config
  unfolding load_found
  load fs = load_found (symlink_metadata path fs).0 (symlink_metadata path fs).1

  -- The three `writeln!` are one write, of which a failure leaves any prefix.
  unfoldable pub save_in : ℕ → Config → Option FilePath → Io ConfigError (Unit {0})
  unfolding from_io ensure_private_directory
  save_in process config none fs = (err invalid_data, fs)
  save_in process config (some directory') fs =
      then_do {0, 0} (ensure_private_directory directory' fs)
        λ _ fs₁. from_io (save_bytes directory' (temporary_name process) path (print config)) fs₁

  unfoldable pub save : ℕ → Config → Io ConfigError (Unit {0})
  unfolding save_in
  save process config fs = save_in process config (parent path) fs

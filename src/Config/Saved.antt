-- ===== src/Config/Saved.antt =====
-- `ConfigStore::load` after `save`.
use keyvisor.Wire.Lines.{newline}
use keyvisor.Wire.Endian.{Bytes}
use keyvisor.Files.Save.{temporary_path, save_bytes, save_bytes-IsAtomic}
use keyvisor.Files.Paths.{FilePath}
use keyvisor.Wire.Utf8.{IsText, ascii-IsText, from_utf8-IsText}
use keyvisor.Wire.Decimal.{IsDigit, to_string, to_string-AreDigits}
use keyvisor.Prelude.{
  ℕ, ◌<◌, ◌≡◌, sym, ap, ◌∙◌, ◌≢◌, Bool, true, false, some, [], ◌∷◌, ◌++◌, arith, All, All-append,
  ok, All-map, map_err-eq-ok, then_do, then_do-ok,
}
use keyvisor.Files.Defs.{
  Files, file, calm, symlink_metadata, read, unless_fault, found, contents, next_fault, node_at,
  tick,
}
use keyvisor.Config.Defs.{Config, io, print, bool_to_string, magic, timeout_name, history_name}
use keyvisor.Config.Settings.{IsValid}
use keyvisor.Config.File.{parse-print}
use keyvisor.Config.Ops.{
  from_io, save, save_in, load, temporary_name, invalid_text, ensure_private_directory, load_found,
}
use keyvisor.History.Ops.{parent, is_shared}

abbrev IsAscii : ℕ → Type 0
IsAscii c = c < 128

digit-ascii : (c : ℕ) → IsDigit c → c < 128
digit-ascii c (low, high) = omega arith

bool_to_string-ascii : (b : Bool) → All (λ c. c < 128) (bool_to_string b)
unfolding bool_to_string
bool_to_string-ascii true = omega arith
bool_to_string-ascii false = omega arith

-- A line of a name and a value, and what follows it.
line-AreAscii :
    (name value rest : Bytes)
    → All IsAscii name
    → All IsAscii value
    → All IsAscii rest
    → All IsAscii ((name ++ b'=' ∷ value) ++ newline ∷ rest)
line-AreAscii name value rest hn hv hr =
    All-append IsAscii (name ++ b'=' ∷ value) (newline ∷ rest)
      (All-append IsAscii name (b'=' ∷ value) hn (omega arith, hv)) (omega arith, hr)

print-IsText : (config : Config) → IsText (print config)
unfolding print
print-IsText config =
    let last : Bytes =
      (history_name ++ b'=' ∷ bool_to_string config.history_enabled) ++ newline ∷ [] in
    let middle : Bytes =
      (timeout_name ++ b'=' ∷ to_string config.authorization_timeout_seconds) ++ newline ∷ last in
    let history : All IsAscii last =
      line-AreAscii history_name (bool_to_string config.history_enabled) [] (omega arith)
        (bool_to_string-ascii config.history_enabled) tt in
    let timeout : All IsAscii middle =
      line-AreAscii timeout_name (to_string config.authorization_timeout_seconds) last (omega arith)
        (All-map digit-ascii _ (to_string-AreDigits config.authorization_timeout_seconds))
        history in
    ascii-IsText (print config)
      (All-append IsAscii magic (newline ∷ middle) (omega arith) (omega arith, timeout))

load-file :
    (path : FilePath) (fs : Files) (config : Config)
    → node_at path fs ≡ some (file 0o600 (print config))
    → IsValid config
    → (load path (calm fs)).0 ≡ ok config
unfolding load load_found symlink_metadata from_io read unless_fault found contents then_do
    is_shared calm next_fault tick node_at
load-file path fs config here valid = rw here (
    rw here (
      rw (from_utf8-IsText invalid_text (print config) (print-IsText config))
        (parse-print config valid)))

-- Valid settings that a save has stored successfully are loaded as those settings from the state
-- that the save has left, where the loading meets no failures. The directory is the parent of the
-- file, whose name is not that of a temporary file.
pub load-save_config :
    (path directory' : FilePath) (process : ℕ) (config : Config) (fs : Files)
    → parent path ≡ some directory'
    → ((k : ℕ) → temporary_path directory' (temporary_name process) k ≢ path)
    → IsValid config
    → (save path process config fs).0 ≡ ok tt
    → (load path (calm (save path process config fs).1)).0 ≡ ok config
unfolding save save_in from_io
load-save_config path directory' process config fs has_parent apart valid h =
    let k = λ (u : Unit {0}) (fs₁ : Files).
      from_io (save_bytes directory' (temporary_name process) path (print config)) fs₁ in
    let whole : save path process config fs
        ≡ then_do {0, 0} (ensure_private_directory directory' fs) k =
      ap (λ d. save_in path process config d fs) has_parent in
    let (_, _, e, h₁) =
      then_do-ok (ensure_private_directory directory' fs) k (sym (ap (λ x. x.0) whole) ∙ h) in
    let a =
      save_bytes-IsAtomic directory' (temporary_name process) path (print config) apart
        (ensure_private_directory directory' fs).1 in
    let done = a.success (map_err-eq-ok io _ h₁) in
    load-file path _ config (ap (λ x. node_at path x.1) (whole ∙ e) ∙ done.0) valid

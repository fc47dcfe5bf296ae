-- ===== src/History/Ops.antt =====
-- `HistoryStore`: list and append over the file system.
use keyvisor.Files.Private.{ensure_private_directory}
use keyvisor.Prelude.{
  ℕ, ◌-◌, Bool, not, Option, none, some, List, [], ◌∷◌, ◌++◌, ltb, ◌==◌, if◌then◌else◌, length,
  drop, Result, ok, err, map_err, then_do,
}
use Prim.Native.Nat.{bit_and}
use keyvisor.Wire.Endian.{Bytes}
use keyvisor.Wire.Utf8.{codes}
use keyvisor.Wire.Decimal.{to_string}
use keyvisor.Files.Paths.{FilePath}
use keyvisor.Files.Defs.{
  IoError, Node, file, directory, special, Io, read, symlink_metadata, not_found,
}
use keyvisor.Files.Save.{save_bytes}
use keyvisor.History.Defs.{
  HistoryEntry, HistoryError, io, invalid_data, validate_entry, encode, decode, max_entries,
}

unfoldable pub from_io {ℓ} : {A : Type ℓ} → Io IoError A → Io HistoryError A
from_io m fs = (map_err io (m fs).0, (m fs).1)

-- `Path::parent`: the root has none.
unfoldable pub parent : FilePath → Option FilePath
parent [] = none
parent (c ∷ []) = some []
parent (c ∷ d ∷ p) = elim (parent (d ∷ p)) [ none ↦ none | some q ↦ some (c ∷ q) ]

-- `format!(".history.{}.{}.tmp", process::id(), attempt)`
unfoldable pub temporary_name : ℕ → ℕ → Bytes
temporary_name process attempt =
    codes ".history." ++ (to_string process ++ b'.' ∷ (to_string attempt ++ codes ".tmp"))

-- `metadata.permissions().mode() & 0o077 != 0`
unfoldable pub is_shared : ℕ → Bool
is_shared mode = not (bit_and mode 0o077 == 0)

-- `entries.drain(..entries.len() - MAX_ENTRIES)` of a list that is too long.
unfoldable pub newest : List HistoryEntry → List HistoryEntry
newest entries =
    if ltb max_entries (length entries)
    then drop (length entries - max_entries) entries
    else entries

module _ (path : FilePath) where
  -- `list` once it has looked at the path.
  unfoldable pub list_found : Result IoError Node → Io HistoryError (List HistoryEntry)
  unfolding from_io is_shared
  list_found (err not_found) fs = (ok [], fs)
  list_found (err e) fs = (err (io e), fs)
  list_found (ok (directory mode)) fs = (err invalid_data, fs)
  list_found (ok (special s)) fs = (err invalid_data, fs)
  list_found (ok (file mode bytes)) fs =
      if is_shared mode
      then (err invalid_data, fs)
      else then_do {0, 0} (from_io (read path) fs) (λ found fs'. (decode found, fs'))

  unfoldable pub list : Io HistoryError (List HistoryEntry)
  unfolding list_found
  list fs = let (r, fs') = symlink_metadata path fs in list_found r fs'

  unfoldable pub save_in : ℕ → List HistoryEntry → Option FilePath → Io HistoryError (Unit {0})
  save_in process entries none fs = (err invalid_data, fs)
  save_in process entries (some directory') fs =
      then_do {0, 0} (from_io (ensure_private_directory directory') fs) λ _ fs₁.
        then_do {0, 0} (encode entries, fs₁)
          λ bytes fs₂. from_io (save_bytes directory' (temporary_name process) path bytes) fs₂

  unfoldable pub save : ℕ → List HistoryEntry → Io HistoryError (Unit {0})
  unfolding save_in from_io ensure_private_directory
  save process entries fs = save_in process entries (parent path) fs

  unfoldable pub append : ℕ → HistoryEntry → Io HistoryError (Unit {0})
  unfolding list save newest
  append process entry fs =
      then_do {0, 0} (validate_entry entry, fs)
        λ _ fs₁.
          then_do {0, 0} (list fs₁) λ entries fs₂. save process (newest (entries ++ entry ∷ [])) fs₂

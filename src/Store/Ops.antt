-- ===== src/Store/Ops.antt =====
-- `KeyStore`: save, load and delete over the file system.
use keyvisor.Files.Private.{ensure_private_directory}
use keyvisor.Prelude.{
  ℕ, Bool, ◌||◌, [], ◌∷◌, ◌++◌, ltb, length, is_empty, Result, ok, err, fail_if, map_err, then_do,
}
use keyvisor.Wire.Endian.{Bytes}
use keyvisor.Wire.Utf8.{codes}
use keyvisor.Wire.Decimal.{to_string}
use keyvisor.Files.Paths.{FilePath}
use keyvisor.Files.Defs.{
  IoError, Node, file, directory, special, Io, read, symlink_metadata, remove_file, sync_directory,
}
use keyvisor.Files.Save.{save_bytes}
use keyvisor.Core.{KeyId, as_str}
use keyvisor.Store.Defs.{
  StoreError, io, invalid_record, StoredKey, validate_record, encode, decode, max_text_len,
}
use keyvisor.Store.Names.{file_stem, file_name}

-- A result that needs no file system.
abbrev pub lift {ℓ} : {E : Type 0} {A : Type ℓ} → Result E A → Io E A
lift r fs = (r, fs)

-- The `From<io::Error>` of `?`.
unfoldable pub from_io {ℓ} : {A : Type ℓ} → Io IoError A → Io StoreError A
from_io m fs = (map_err io (m fs).0, (m fs).1)

-- `format!(".{}.{}.{}.tmp", file_stem(id), process::id(), attempt)`
unfoldable pub temporary_name : ℕ → KeyId → ℕ → Bytes
temporary_name process id attempt =
    b'.'
    ∷ (file_stem id ++ b'.' ∷ (to_string process ++ b'.' ∷ (to_string attempt ++ codes ".tmp")))

-- A key store is its directory.
module _ (store : FilePath) where
  unfoldable pub path_for : KeyId → FilePath
  path_for id = store ++ file_name id ∷ []

  unfoldable pub save : ℕ → StoredKey → Io StoreError (Unit {0})
  unfolding from_io ensure_private_directory
  save process key fs =
      then_do {0, 0} (validate_record key, fs)
        λ _ fs₁.
          then_do {0, 0} (encode key, fs₁)
            λ bytes fs₂. then_do {0, 0} (from_io (ensure_private_directory store) fs₂) λ _ fs₃.
              from_io
                (save_bytes store (temporary_name process key.summary.id) (path_for key.summary.id)
                  bytes)
                fs₃

  unfoldable pub load : KeyId → Io StoreError StoredKey
  unfolding from_io
  load id fs = then_do {0, 0} (from_io (read (path_for id)) fs) (λ bytes fs'. (decode bytes, fs'))

  unfoldable pub require_file : Node → Result StoreError (Unit {0})
  require_file (file mode bytes) = ok tt
  require_file (directory mode) = err invalid_record
  require_file (special s) = err invalid_record

  pub id_invalid : KeyId → Bool
  id_invalid id = is_empty (as_str id) || ltb max_text_len (length (as_str id))

  unfoldable pub delete : KeyId → Io StoreError (Unit {0})
  unfolding from_io require_file id_invalid
  delete id fs =
      then_do {0, 0} (fail_if (id_invalid id) invalid_record, fs)
        λ _ fs₁. then_do {0, 0} (from_io (symlink_metadata (path_for id)) fs₁) λ node fs₂.
          then_do {0, 0} (require_file node, fs₂)
            λ _ fs₃.
              then_do {0, 0} (from_io (remove_file (path_for id)) fs₃)
                λ _ fs₄. from_io (sync_directory store) fs₄

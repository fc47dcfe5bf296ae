-- ===== src/Store/Refinement.antt =====
-- The key store as a finite map from identifiers to keys.
use keyvisor.Store.Deleted.{delete_lem}
use keyvisor.Store.Codec.{IsTyped, record_bytes, decode-record_bytes}
use mathlib.Core.List.{append_cancel_right}
use keyvisor.Wire.Utf8.{codes}
use keyvisor.Store.Saved.{append-cancel, save-SavesKey, append-ne}
use keyvisor.Wire.Endian.{AreBytes}
use keyvisor.Store.Names.{file_name, file_stem, file_stem-injective}
use keyvisor.Store.Defs.{StoredKey, decode, record_invalid, validate_record, StoreError}
use keyvisor.Core.{KeyId, as_str}
use keyvisor.Files.Paths.{FilePath}
use keyvisor.Files.Defs.{Node, Files, file, node_at}
use keyvisor.Prelude.{
  ℕ, ◌≡◌, refl, ap, ◌∙◌, ◌≢◌, ◌⊎◌, inl, inr, true, false, Option, none, some, ◌++◌, Bool-cases,
  Result, ok, err, then_do,
}
use keyvisor.Store.Ops.{save, delete, path_for}

abbrev pub key_of_result : Result StoreError StoredKey → Option StoredKey
key_of_result (ok key) = some key
key_of_result (err e) = none

-- The key that a node holds, if it is a regular file with a record.
abbrev pub key_of_node : Option Node → Option StoredKey
key_of_node (some (file mode bytes)) = key_of_result (decode bytes)
key_of_node _ = none

-- The map that the files of a store stand for.
abbrev pub view : FilePath → Files → KeyId → Option StoredKey
view store fs id = key_of_node (node_at (path_for store id) fs)

-- Two maps that agree on every identifier but one.
abbrev pub SameElsewhere : KeyId → (KeyId → Option StoredKey) → (KeyId → Option StoredKey) → Type 0
SameElsewhere id before after =
    (other : KeyId) → AreBytes (as_str other) → other ≢ id → after other ≡ before other

path_for-injective :
    (store : FilePath) (id other : KeyId)
    → AreBytes (as_str id)
    → AreBytes (as_str other)
    → other ≢ id
    → path_for store other ≢ path_for store id
unfolding path_for file_name
path_for-injective store id other all all' ne e =
    let name =
      append-cancel store (file_stem other ++ codes ".key") (file_stem id ++ codes ".key") e in
    let stem = append_cancel_right (file_stem other) (file_stem id) (codes ".key") name in
    ne ((file_stem-injective other id all' all).1 stem)

-- The files of the store after an operation stand for the map with the key, or without it.
abbrev pub IsInserted : FilePath → Files → Files → StoredKey → Type 0
IsInserted store fs fs' key =
    (view store fs' key.summary.id ≡ some key)
    × SameElsewhere key.summary.id (view store fs) (view store fs')

abbrev pub IsErased : FilePath → Files → Files → KeyId → Type 0
IsErased store fs fs' id =
    (view store fs' id ≡ none) × SameElsewhere id (view store fs) (view store fs')

module _ (store : FilePath) (process : ℕ) (key : StoredKey) (fs : Files) where
  saved-view :
      (fs' : Files)
      → IsTyped key
      → record_invalid key ≡ false
      → node_at (path_for store key.summary.id) fs' ≡ some (file 0o600 (record_bytes key))
      → view store fs' key.summary.id ≡ some key
  saved-view fs' typed valid here =
      ap key_of_node here ∙ ap key_of_result (decode-record_bytes key typed valid)

  invalid-same : record_invalid key ≡ true → (save store process key fs).1 ≡ fs
  unfolding save validate_record then_do
  invalid-same invalid = rw invalid refl

  failed_or : {P : Type 0} (r : Result StoreError (Unit {0})) → (r ≡ ok tt → P) → (r ≢ ok tt) ⊎ P
  failed_or (ok u) rest = inr (rest refl)
  failed_or (err e) rest = inl (λ h. cc)

  -- The key store implements a map from identifiers to keys: a save that succeeds inserts the key, a
  -- save that fails leaves its identifier with what it had or with the key, and a deletion that
  -- succeeds erases the identifier. All other identifiers keep their keys, after a save that
  -- succeeds and after any deletion. The key's texts are UTF-8, and identifiers are bytes.
  pub store-IsMap :
      IsTyped key
      → AreBytes (as_str key.summary.id)
      → (((save store process key fs).0 ≢ ok tt)
          ⊎ IsInserted store fs (save store process key fs).1 key)
        × ((view store (save store process key fs).1 key.summary.id ≡ view store fs key.summary.id)
            ⊎ (view store (save store process key fs).1 key.summary.id ≡ some key))
        × (((delete store key.summary.id fs).0 ≢ ok tt)
            ⊎ IsErased store fs (delete store key.summary.id fs).1 key.summary.id)
        × SameElsewhere key.summary.id
            (view store fs)
            (view store (delete store key.summary.id fs).1)
  unfolding path_for
  store-IsMap typed all =
      let id = key.summary.id in
      let s = save-SavesKey store process key fs in
      let (kept, erased) = delete_lem store id fs in
      let elsewhere : SameElsewhere id (view store fs) (view store (delete store id fs).1) =
        λ other bytes ne.
          ap key_of_node
            (kept (path_for store other) (path_for-injective store id other all bytes ne)) in
      (
        failed_or (save store process key fs).0 λ h.
            let (valid, here, others) = s.success h in
            (
              saved-view (save store process key fs).1 typed valid here,
              λ other bytes ne. ap key_of_node (
                  others (path_for store other) (path_for-injective store id other all bytes ne)
                    (append-ne store (file_name other))),
            ),
        elim (Bool-cases (record_invalid key)) [
          | inl invalid ↦ inl (ap (λ fs'. view store fs' id) (invalid-same invalid))
          | inr valid ↦ elim s.old_or_new [
            | inl same ↦ inl (ap key_of_node same)
            | inr new ↦ inr (saved-view (save store process key fs).1 typed valid new)
          ]
        ],
        failed_or (delete store key.summary.id fs).0
            λ h. let (valid, was, gone) = erased h in (ap key_of_node gone, elsewhere),
        elsewhere,
      )

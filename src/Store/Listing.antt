-- ===== src/Store/Listing.antt =====
-- `KeyStore::list`: the records of the directory, sorted by identifier.
use keyvisor.Wire.Utf8.{codes}
use keyvisor.Core.{as_str}
use keyvisor.Wire.Endian.{Bytes}
use keyvisor.Files.Paths.{FilePath}
use keyvisor.Files.Defs.{
  file, directory, special, not_found, Node, Io, IoError, other, unless_fault, found, read, node_at,
}
use keyvisor.Store.Defs.{io}
use keyvisor.Prelude.{
  ◌-◌, Bool, true, false, ◌&&◌, ◌||◌, Option, none, some, List, [], ◌∷◌, ◌++◌, ltb, ◌==◌,
  if◌then◌else◌, length, drop, bytes_eq, Result, ok, err, then_do,
}
use keyvisor.Store.Defs.{StoredKey, StoreError, invalid_record, decode}
use keyvisor.Store.Ops.{from_io}

-- The names and nodes directly below a directory.
unfoldable pub child_of : FilePath → FilePath → Option Bytes
child_of [] [] = none
child_of [] (name ∷ []) = some name
child_of [] (name ∷ d ∷ p) = none
child_of (c ∷ parent) [] = none
child_of (c ∷ parent) (d ∷ p) = if bytes_eq c d then child_of parent p else none

unfoldable pub children : FilePath → List (FilePath × Node) → List (Bytes × Node)
unfolding child_of
children parent [] = []
children parent ((p, node) ∷ nodes) =
    let rest = children parent nodes in
    elim (child_of parent p) [ none ↦ rest | some name ↦ (name, node) ∷ rest ]

unfoldable pub entries_of :
    List (FilePath × Node) → FilePath → Node → Result IoError (List (Bytes × Node))
unfolding children
entries_of nodes p (directory mode) = ok (children p nodes)
entries_of nodes p (file mode bytes) = err (other 20)
entries_of nodes p (special s) = err (other 20)

-- `fs::read_dir` with the entries and their types: a failure of the iterator is one of the call.
unfoldable pub read_dir : FilePath → Io IoError (List (Bytes × Node))
unfolding entries_of
read_dir p fs = unless_fault fs (λ fs'. (found (entries_of fs'.nodes p) (node_at p fs'), fs'))

-- `entry.path().extension()` is `"key"`: the name ends in `.key`, and is more than that.
unfoldable pub has_key_extension : Bytes → Bool
has_key_extension name =
    ltb 4 (length name) && bytes_eq (drop (length name - 4) name) (codes ".key")

-- `str::cmp` is `Less`.
unfoldable pub is_less : Bytes → Bytes → Bool
is_less [] [] = false
is_less [] (b ∷ bs) = true
is_less (a ∷ as') [] = false
is_less (a ∷ as') (b ∷ bs) = ltb a b || a == b && is_less as' bs

-- `sort_by` is stable, as this is.
unfoldable pub insert_key : StoredKey → List StoredKey → List StoredKey
insert_key key [] = key ∷ []
insert_key key (k ∷ keys) =
    let rest = insert_key key keys in
    if is_less (as_str k.summary.id) (as_str key.summary.id) then k ∷ rest else key ∷ k ∷ keys

unfoldable pub sort_keys : List StoredKey → List StoredKey
unfolding insert_key
sort_keys [] = []
sort_keys (key ∷ keys) = insert_key key (sort_keys keys)

module _ (store : FilePath) where
  -- A record's file: its node is a regular file, and its bytes are read and decoded.
  unfoldable pub read_record : Bytes → Node → Io StoreError StoredKey
  unfolding from_io
  read_record name (file mode bytes) fs =
      then_do {0, 0} (from_io (read (store ++ name ∷ [])) fs) (λ found fs'. (decode found, fs'))
  read_record name (directory mode) fs = (err invalid_record, fs)
  read_record name (special s) fs = (err invalid_record, fs)

  -- The `for` loop: one malformed record fails it.
  unfoldable pub read_records : List (Bytes × Node) → Io StoreError (List StoredKey)
  unfolding has_key_extension
  read_records [] fs = (ok [], fs)
  read_records ((name, node) ∷ entries) fs = elim (has_key_extension name) [
    | false ↦ read_records entries fs
    | true ↦
        then_do {0, 0} (read_record name node fs)
          λ key fs₁. then_do {0, 0} (read_records entries fs₁) λ keys fs₂. (ok (key ∷ keys), fs₂)
  ]

  unfoldable pub list_entries :
      Result IoError (List (Bytes × Node)) → Io StoreError (List StoredKey)
  unfolding sort_keys
  list_entries (err not_found) fs = (ok [], fs)
  list_entries (err e) fs = (err (io e), fs)
  list_entries (ok entries) fs =
      then_do {0, 0} (read_records entries fs) (λ keys fs'. (ok (sort_keys keys), fs'))

  unfoldable pub list : Io StoreError (List StoredKey)
  unfolding list_entries read_dir
  list fs = list_entries (read_dir store fs).0 (read_dir store fs).1

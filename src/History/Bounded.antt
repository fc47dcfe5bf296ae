-- ===== src/History/Bounded.antt =====
-- `HistoryStore::list` after `append`.
use keyvisor.Prelude.{
  ℕ, ◌+◌, ◌-◌, ◌≤◌, ◌≡◌, refl, sym, ap, ◌∙◌, subst, ◌≢◌, inl, inr, true, false, some, List, [], ◌∷◌,
  ◌++◌, arith, ltb, if◌then◌else◌, Bool-cases, length, drop, length-append, length-drop, All,
  All-append, Result, ok, err, ok-injective, All-drop, map_err-eq-ok, then_do, then_do-ok,
}
use keyvisor.Wire.Endian.{Bytes, AreBytes}
use keyvisor.Files.Private
use keyvisor.History.Codec.{IsTyped, decode-encode}
use keyvisor.History.Canonical.{decode_history-exact}
use keyvisor.Files.Paths.{FilePath}
use keyvisor.Files.Defs.{
  IoError, Files, Node, file, directory, special, node_at, read, symlink_metadata, not_found, found,
  contents, unless_fault, node_at-tick, next_fault, tick, calm,
}
use keyvisor.Files.Atomic.{unless_fault-nodes, read-nodes}
use keyvisor.Files.Save.{save_bytes, save_bytes-IsAtomic, temporary_path}
use keyvisor.History.Defs.{
  HistoryEntry, io, encode, max_entries, validate_entry, HistoryError, decode,
}
use keyvisor.History.Ops.{
  from_io, list, save, list_found, newest, parent, temporary_name, save_in, append, is_shared,
}

-- A list within the bound is kept whole.
pub newest-le : (entries : List HistoryEntry) → length (newest entries) ≤ max_entries
unfolding newest
newest-le entries = ground (arith, length-drop (length entries - max_entries) entries)

list_found-nodes :
    (path q : FilePath) (r : Result IoError Node) (fs : Files)
    → node_at q (list_found path r fs).1 ≡ node_at q fs
unfolding list_found from_io then_do
list_found-nodes path q (err not_found) fs = refl
list_found-nodes path q (err e) fs = refl
list_found-nodes path q (ok (directory mode)) fs = refl
list_found-nodes path q (ok (special s)) fs = refl
list_found-nodes path q (ok (file mode bytes)) fs = ground (arith, read-nodes path q fs)

list-nodes : (path q : FilePath) (fs : Files) → node_at q (list path fs).1 ≡ node_at q fs
unfolding list symlink_metadata
list-nodes path q fs =
    list_found-nodes path q (symlink_metadata path fs).0 (symlink_metadata path fs).1
    ∙ unless_fault-nodes q fs (λ fs'. found ok (node_at path fs'))

-- The file of a path, if it is a file, holds bytes.
abbrev pub HoldsBytes : FilePath → Files → Type 0
HoldsBytes path fs =
    (mode : ℕ) (bytes : Bytes) → node_at path fs ≡ some (file mode bytes) → AreBytes bytes

list_found-IsTyped :
    (path : FilePath) (r : Result IoError Node) (fs : Files) (entries : List HistoryEntry)
    → HoldsBytes path fs
    → (list_found path r fs).0 ≡ ok entries
    → ((mode : ℕ) (bytes : Bytes)
        → r ≡ ok (file mode bytes)
        → node_at path fs ≡ some (file mode bytes))
    → All IsTyped entries
unfolding list_found from_io read unless_fault found contents then_do
list_found-IsTyped path (err not_found) fs entries all h same =
    subst (All IsTyped) (ok-injective {E = HistoryError} h) tt
list_found-IsTyped path (err e) fs entries all h same = cc
list_found-IsTyped path (ok (directory mode)) fs entries all h same = cc
list_found-IsTyped path (ok (special s)) fs entries all h same = cc
list_found-IsTyped path (ok (file mode bytes)) fs entries all h same =
    let here = same mode bytes refl in
    let decoded : decode bytes ≡ ok entries = ground (arith, here, node_at-tick path fs) in
    ((decode_history-exact bytes entries (all mode bytes here)).0 decoded).1

symlink_metadata-node :
    (path : FilePath) (n : Node) (fs : Files)
    → (symlink_metadata path fs).0 ≡ ok n
    → node_at path fs ≡ some n
unfolding symlink_metadata unless_fault found
symlink_metadata-node path n fs h = ground (arith, node_at-tick path fs)

list-IsTyped :
    (path : FilePath) (fs : Files) (entries : List HistoryEntry)
    → HoldsBytes path fs
    → (list path fs).0 ≡ ok entries
    → All IsTyped entries
unfolding list symlink_metadata
list-IsTyped path fs entries all h =
    let same = unless_fault-nodes path fs (λ fs'. found ok (node_at path fs')) in
    list_found-IsTyped path (symlink_metadata path fs).0 (symlink_metadata path fs).1 entries
      (λ mode bytes e. all mode bytes (sym same ∙ e)) h
      (λ mode bytes e. same ∙ symlink_metadata-node path (file mode bytes) fs e)

-- A list that is not too long loses nothing.
newest-drop :
    (old : List HistoryEntry) (entry : HistoryEntry)
    → newest (old ++ entry ∷ []) ≡ drop (length old + 1 - max_entries) (old ++ entry ∷ [])
unfolding newest
newest-drop old entry =
    let long : length (old ++ entry ∷ []) ≡ length old + 1 =
      omega (arith, length-append old (entry ∷ [])) in
    rw long (elim (Bool-cases (ltb max_entries (length old + 1))) [
      | inl e ↦ rw e
      | inr e ↦ let nothing : length old + 1 - max_entries ≡ 0 = ground arith in rw (e, nothing)
    ])

newest-IsTyped : (entries : List HistoryEntry) → All IsTyped entries → All IsTyped (newest entries)
unfolding newest
newest-IsTyped entries h =
    elim (ltb max_entries (length entries))
      as (λ b. All IsTyped (if b then drop (length entries - max_entries) entries else entries)) [
        | true ↦ All-drop IsTyped (length entries - max_entries) entries h
        | false ↦ h
      ]

list-file :
    (path : FilePath) (fs : Files) (entries : List HistoryEntry) (bytes : Bytes)
    → node_at path fs ≡ some (file 0o600 bytes)
    → encode entries ≡ ok bytes
    → All IsTyped entries
    → (list path (calm fs)).0 ≡ ok entries
unfolding list symlink_metadata list_found from_io read unless_fault found contents then_do
    is_shared calm next_fault tick node_at
list-file path fs entries bytes here encoded typed =
    rw here (rw here (decode-encode entries bytes typed encoded))

-- The file of a history, and its directory. The file's name is not that of a temporary file.
module _ (path directory' : FilePath) (process : ℕ) (has_parent : parent path ≡ some directory')
    (apart : (k : ℕ) → temporary_path directory' (temporary_name process) k ≢ path) where
  Holds : List HistoryEntry → Files → Type 0
  Holds entries fs =
      (bytes : Bytes) × (encode entries ≡ ok bytes) × (node_at path fs ≡ some (file 0o600 bytes))

  save-Holds :
      (entries : List HistoryEntry) (fs : Files)
      → (save path process entries fs).0 ≡ ok tt
      → Holds entries (save path process entries fs).1
  unfolding save save_in from_io Holds
  save-Holds entries fs h =
      let r = save path process entries fs in
      let k = λ (u : Unit {0}) (fs₁ : Files).
        then_do {0, 0} (encode entries, fs₁)
          (λ bytes fs₂. from_io (save_bytes directory' (temporary_name process) path bytes) fs₂) in
      let whole : r ≡ then_do {0, 0} (from_io (Private.ensure_private_directory directory') fs) k =
        ap (λ d. save_in path process entries d fs) has_parent in
      let (_, _, e₁, h₁) =
        then_do-ok (from_io (Private.ensure_private_directory directory') fs) k
          (sym (ap (λ x. x.0) whole) ∙ h) in
      let (bytes, encoded, e₂, h₂) = then_do-ok (encode entries, _) _ h₁ in
      let a =
        save_bytes-IsAtomic directory' (temporary_name process) path bytes apart
          (from_io (Private.ensure_private_directory directory') fs).1 in
      let done = a.success (map_err-eq-ok io _ h₂) in
      (bytes, encoded, ap (λ x. node_at path x.1) (whole ∙ e₁ ∙ e₂) ∙ done.0)

  append-Holds :
      (entry : HistoryEntry) (fs : Files)
      → (append path process entry fs).0 ≡ ok tt
      → (old : List HistoryEntry) × ((list path fs).0 ≡ ok old)
        × Holds (newest (old ++ entry ∷ [])) (append path process entry fs).1
  unfolding append Holds
  append-Holds entry fs h =
      let (_, _, e₁, h₁) = then_do-ok (validate_entry entry, fs) _ h in
      let (old, listed, e₂, h₂) = then_do-ok (list path fs) _ h₁ in
      let (bytes, encoded, here) = save-Holds (newest (old ++ entry ∷ [])) _ h₂ in
      (old, listed, (bytes, encoded, ap (λ x. node_at path x.1) (e₁ ∙ e₂) ∙ here))

  -- An entry that has been appended is listed last, after the entries that the file held, of which
  -- as many of the oldest are gone as there would be above 200. The directory is the parent of the
  -- file, whose name is not that of a temporary file; the file held bytes, and the entry's time fits
  -- 64 bits and its texts are UTF-8; the listing meets no failures.
  pub append-list :
      (entry : HistoryEntry) (fs : Files)
      → IsTyped entry
      → HoldsBytes path fs
      → (append path process entry fs).0 ≡ ok tt
      → (old : List HistoryEntry) × ((list path fs).0 ≡ ok old)
        × ((list path (calm (append path process entry fs).1)).0
            ≡ ok (drop (length old + 1 - max_entries) (old ++ entry ∷ [])))
        × (length (drop (length old + 1 - max_entries) (old ++ entry ∷ [])) ≤ max_entries)
  unfolding Holds
  append-list entry fs typed all h =
      let (old, listed, (bytes, encoded, here)) = append-Holds entry fs h in
      let kept =
        newest-IsTyped (old ++ entry ∷ [])
          (All-append IsTyped old (entry ∷ []) (list-IsTyped path fs old all listed) (typed, tt)) in
      let same = newest-drop old entry in
      (
        old,
        listed,
        list-file path _ _ bytes here encoded kept ∙ ap ok same,
        subst (λ l. length l ≤ max_entries) same (newest-le (old ++ entry ∷ [])),
      )

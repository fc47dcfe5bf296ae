-- ===== src/Store/Deleted.antt =====
-- `KeyStore::delete` on the file system.
use keyvisor.Files.Atomic.{unless_fault-nodes, remove_file-SameBut, sync_directory-nodes}
use keyvisor.Core.{KeyId}
use keyvisor.Wire.Endian.{Bytes}
use keyvisor.Files.Paths.{FilePath, path_eq_iff}
use keyvisor.Prelude.{
  ℕ, ◌≡◌, refl, ap, ◌∙◌, ◌≢◌, false, none, some, arith, Result, ok, fail_if, fail_if-eq-ok,
  map_err-eq-ok, then_do-post, then_do-ok,
}
use keyvisor.Files.Defs.{
  file, directory, special, remove_file, symlink_metadata, Node, unless_fault, Files, found,
  node_at, node_at-delete, node_at-tick, tick,
}
use keyvisor.Store.Defs.{StoreError, io, invalid_record}
use keyvisor.Store.Ops.{from_io, delete, path_for, require_file, id_invalid}

remove_file-ok :
    (p : FilePath) (fs : Files)
    → (remove_file p fs).0 ≡ ok tt
    → node_at p (remove_file p fs).1 ≡ none
unfolding remove_file unless_fault
remove_file-ok p fs h = ground (arith, node_at-delete p p (tick fs), path_eq_iff p p)

symlink_metadata-ok :
    (p : FilePath) (fs : Files) {n : Node}
    → (symlink_metadata p fs).0 ≡ ok n
    → node_at p fs ≡ some n
unfolding symlink_metadata unless_fault found
symlink_metadata-ok p fs h = ground (arith, node_at-tick p fs)

module _ (store : FilePath) (id : KeyId) where
  require_file-ok :
      (n : Node) {u : Unit {0}}
      → require_file store n ≡ ok u
      → (mode : ℕ) × (bytes : Bytes) × (n ≡ file mode bytes)
  unfolding require_file
  require_file-ok (file mode bytes) h = (mode, bytes, refl)
  require_file-ok (directory mode) h = cc
  require_file-ok (special s) h = cc

  abbrev Kept {ℓ} : {A : Type ℓ} → Files → Result StoreError A × Files → Type 0
  Kept fs r = (q : FilePath) → q ≢ path_for store id → node_at q r.1 ≡ node_at q fs

  symlink_metadata-nodes :
      (p q : FilePath) (fs : Files) → node_at q (symlink_metadata p fs).1 ≡ node_at q fs
  unfolding symlink_metadata
  symlink_metadata-nodes p q fs = unless_fault-nodes q fs (λ fs'. found ok (node_at p fs'))

  delete-Kept : (fs : Files) → Kept fs (delete store id fs)
  unfolding delete from_io
  delete-Kept fs =
      let p = path_for store id in
      let seen = symlink_metadata p fs in
      then_do-post (Kept fs) (fail_if (id_invalid store id) invalid_record, fs) _ (λ e _ q ne. refl)
        (λ _ _.
          then_do-post (Kept fs) (from_io (symlink_metadata p) fs) _
            (λ e _ q ne. symlink_metadata-nodes p q fs)
            (λ node _.
              then_do-post (Kept fs) (require_file store node, seen.1) _
                (λ e _ q ne. symlink_metadata-nodes p q fs)
                (λ _ _.
                  then_do-post (Kept fs) (from_io (remove_file p) seen.1) _
                    (λ e _ q ne. remove_file-SameBut p seen.1 q ne ∙ symlink_metadata-nodes p q fs)
                    (λ _ _ q ne.
                      sync_directory-nodes store q (remove_file p seen.1).1
                      ∙ remove_file-SameBut p seen.1 q ne
                      ∙ symlink_metadata-nodes p q fs))))

  -- Whatever fails, a deletion changes no other path than the record's. If it succeeds, the
  -- identifier was not empty nor too long, its record was a regular file, and it is gone.
  pub delete_lem :
      (fs : Files)
      → ((q : FilePath) → q ≢ path_for store id → node_at q (delete store id fs).1 ≡ node_at q fs)
        × ((delete store id fs).0 ≡ ok tt
            → (id_invalid store id ≡ false)
              × ((mode : ℕ) × (bytes : Bytes) × (node_at (path_for store id) fs
                    ≡ some (file mode bytes)))
              × (node_at (path_for store id) (delete store id fs).1 ≡ none))
  unfolding delete from_io
  delete_lem fs =
      let p = path_for store id in
      let seen = symlink_metadata p fs in
      (
        delete-Kept fs,
        λ h.
            let (_, valid, w₀, h₀) =
              then_do-ok (fail_if (id_invalid store id) invalid_record, fs) _ h in
            let (n, looked, w₁, h₁) = then_do-ok (from_io (symlink_metadata p) fs) _ h₀ in
            let (_, regular, w₂, h₂) = then_do-ok (require_file store n, seen.1) _ h₁ in
            let (_, removed, w₃, h₃) = then_do-ok (from_io (remove_file p) seen.1) _ h₂ in
            let (mode, bytes, is-file) = require_file-ok n regular in
            (
              fail_if-eq-ok _ _ valid,
              (mode, bytes, symlink_metadata-ok p fs (map_err-eq-ok io _ looked) ∙ ap some is-file),
              ap (λ r. node_at p r.1) (w₀ ∙ w₁ ∙ w₂ ∙ w₃)
                  ∙ sync_directory-nodes store p (remove_file p seen.1).1
                  ∙ remove_file-ok p seen.1 (map_err-eq-ok io _ removed),
            ),
      )

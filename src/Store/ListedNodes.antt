-- ===== src/Store/ListedNodes.antt =====
-- A listing leaves the files as they are.
use keyvisor.Store.Listed.{read_record-nodes}
use keyvisor.Files.Defs.{not_found, already_exists, invalid_input, permission_denied, other}
use keyvisor.Files.Atomic.{unless_fault-nodes}
use keyvisor.Wire.Endian.{Bytes}
use keyvisor.Store.Defs.{StoreError}
use keyvisor.Files.Defs.{Files, IoError, node_at, Node, found}
use keyvisor.Files.Paths.{FilePath}
use keyvisor.Prelude.{
  ◌≡◌, refl, ◌∙◌, inl, inr, List, [], ◌∷◌, Bool-cases, Result, ok, err, then_do-post,
}
use keyvisor.Store.Listing.{
  list, read_records, list_entries, read_dir, has_key_extension, entries_of, read_record,
}

module _ (store : FilePath) (q : FilePath) where
  Keeps : {A : Type 0} → Files → Result StoreError A × Files → Type 0
  Keeps fs r = node_at q r.1 ≡ node_at q fs

  read_records-Keeps :
      (entries : List (Bytes × Node)) (fs : Files) → Keeps fs (read_records store entries fs)
  unfolding read_records Keeps
  read_records-Keeps [] fs = refl
  read_records-Keeps ((name, node) ∷ entries) fs = elim (Bool-cases (has_key_extension name)) [
    | inl e ↦
        let here = read_record-nodes store q name node fs in
        let there = read_records-Keeps entries (read_record store name node fs).1 ∙ here in
        rw (read_records, e)
          (then_do-post (Keeps fs) (read_record store name node fs) _ (λ e' f. here)
            λ key f.
              then_do-post (Keeps fs)
                (read_records store entries (read_record store name node fs).1) _ (λ e' f'. there)
                (λ keys f'. there))
    | inr e ↦ rw (read_records, e) (read_records-Keeps entries fs)
  ]

  list_entries-Keeps :
      (r : Result IoError (List (Bytes × Node))) (fs : Files) → Keeps fs (list_entries store r fs)
  unfolding list_entries Keeps
  list_entries-Keeps (err not_found) fs = refl
  list_entries-Keeps (err already_exists) fs = refl
  list_entries-Keeps (err invalid_input) fs = refl
  list_entries-Keeps (err permission_denied) fs = refl
  list_entries-Keeps (err (other n)) fs = refl
  list_entries-Keeps (ok entries) fs =
      then_do-post (Keeps fs) (read_records store entries fs) _
        (λ e f. read_records-Keeps entries fs) (λ keys f. read_records-Keeps entries fs)

  pub list-nodes : (fs : Files) → node_at q (list store fs).1 ≡ node_at q fs
  unfolding list read_dir Keeps
  list-nodes fs =
      list_entries-Keeps (read_dir store fs).0 (read_dir store fs).1
      ∙ unless_fault-nodes q fs (λ fs'. found (entries_of fs'.nodes store) (node_at store fs'))

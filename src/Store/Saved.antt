-- ===== src/Store/Saved.antt =====
-- What `save` does to the file system, and `load` after it.
use keyvisor.Files.Private.{ensure_private_directory, ensure_private_directory-SameBut}
use keyvisor.Store.Codec.{record_bytes, encode_valid, IsTyped, decode-record_bytes}
use keyvisor.Store.Defs.{
  record_invalid, StoredKey, texts_invalid, StoreError, validate_record, io, invalid_record, encode,
}
use keyvisor.Wire.Utf8.{codes}
use keyvisor.Wire.Hex.{lower_digit, hex}
use keyvisor.Prelude.{
  ℕ, ◌/◌, ◌≡◌, refl, sym, ap, ◌∙◌, subst, ◌≢◌, ◌⊎◌, inl, inr, false, Option, none, some, [], ◌∷◌,
  ◌++◌, arith, length, is_empty, length-append, Result, ok, err, map_err, ok-injective,
  fail_if-eq-ok, then_do-post, then_do,
}
use keyvisor.Wire.Endian.{Bytes}
use keyvisor.Files.Paths.{FilePath}
use keyvisor.Files.Defs.{
  IoError, Files, Node, file, node_at, node_at-tick, unless_fault, found, read, contents,
  next_fault,
}
use keyvisor.Files.Atomic.{SameBut}
use keyvisor.Files.Save.{temporary_path, save_bytes, save_bytes-IsAtomic}
use keyvisor.Core.{KeyId, as_str}
use keyvisor.Store.Names.{file_stem, file_name}
use keyvisor.Store.Ops.{path_for, temporary_name, load, from_io, save}

-- A part behind the same directory is the same part.
pub append-cancel : (p : FilePath) (a b : Bytes) → p ++ a ∷ [] ≡ p ++ b ∷ [] → a ≡ b
append-cancel [] a b e = cc
append-cancel (c ∷ p) a b e = append-cancel p a b (cc)

pub append-ne : (p : FilePath) (a : Bytes) → p ++ a ∷ [] ≢ p
append-ne p a e = absurd (omega (arith, ap (λ q. length q) e, length-append {0} p (a ∷ [])))

lower_digit-ne-dot : (n : ℕ) → lower_digit n ≢ b'.'
unfolding lower_digit
lower_digit-ne-dot n = ground arith

head_eq : {a b : ℕ} {s t : Bytes} → ◌≡◌ {A = Bytes} (a ∷ s) (b ∷ t) → a ≡ b
head_eq h = cc

first_differs :
    (process k : ℕ) (id : KeyId)
    → is_empty (as_str id) ≡ false
    → temporary_name process id k ≢ file_name id
unfolding temporary_name file_name file_stem hex
first_differs process k id nonempty = named (as_str id) refl nonempty
  where
    named :
        (s : Bytes)
        → as_str id ≡ s
        → is_empty s ≡ false
        → temporary_name process id k ≢ file_name id
    named [] e h x = cc
    named (b ∷ bs) e h x =
        lower_digit-ne-dot (b / 16) (sym (head_eq (x ∙ ap (λ v. hex v ++ codes ".key") e)))

-- The name of a record begins with a hexadecimal digit, that of a temporary file with a dot.
temporary_apart :
    (store : FilePath) (process : ℕ) (id : KeyId)
    → is_empty (as_str id) ≡ false
    → (k : ℕ) → temporary_path store (temporary_name process id) k ≢ path_for store id
unfolding path_for
temporary_apart store process id nonempty k e =
    first_differs process k id nonempty (append-cancel store _ _ e)

valid_id : (key : StoredKey) → record_invalid key ≡ false → is_empty (as_str key.summary.id) ≡ false
unfolding record_invalid texts_invalid
valid_id key h = ground arith

module _ (store : FilePath) (process : ℕ) (key : StoredKey) where
  -- What `save` promises, whether it succeeds or not.
  pub record SavesKey (fs : Files) (r : Result StoreError (Unit {0}) × Files) : Type 0 where
    pub success :
        r.0 ≡ ok tt
        → (record_invalid key ≡ false)
          × (node_at (path_for store key.summary.id) r.1 ≡ some (file 0o600 (record_bytes key)))
          × ((q : FilePath)
              → q ≢ path_for store key.summary.id
              → q ≢ store
              → node_at q r.1 ≡ node_at q fs)
    pub old_or_new :
        (node_at (path_for store key.summary.id) r.1 ≡ node_at (path_for store key.summary.id) fs)
        ⊎ (node_at (path_for store key.summary.id) r.1 ≡ some (file 0o600 (record_bytes key)))
    pub others :
        (q : FilePath)
        → ((k : ℕ) → q ≢ temporary_path store (temporary_name process key.summary.id) k)
        → q ≢ path_for store key.summary.id
        → q ≢ store
        → node_at q r.1 ≡ node_at q fs

  path_apart : path_for store key.summary.id ≢ store
  unfolding path_for
  path_apart = append-ne store (file_name key.summary.id)

  -- A failure that has changed at most the directory.
  stopped : (fs fs' : Files) (e : StoreError) → SameBut store fs fs' → SavesKey fs (err e, fs')
  stopped fs fs' e same = record {
    success = λ h. cc;
    old_or_new = inl (same _ path_apart);
    others = λ q _ _ h. same q h;
  }

  written :
      (fs fs' : Files)
      → record_invalid key ≡ false
      → SameBut store fs fs'
      → SavesKey fs (
          from_io
            (save_bytes store
              (temporary_name process key.summary.id)
              (path_for store key.summary.id)
              (record_bytes key))
            fs')
  unfolding from_io
  written fs fs' valid same =
      let a =
        save_bytes-IsAtomic store (temporary_name process key.summary.id)
          (path_for store key.summary.id) (record_bytes key)
          (temporary_apart store process key.summary.id (valid_id key valid)) fs' in
      record {
        success = λ h.
            let done = a.success (map_err-eq-ok _ h) in
            (valid, done.0, λ q k d. done.1 q k ∙ same q d);
        old_or_new = same_old (same _ path_apart) a.old_or_new;
        others = λ q k d s. a.others q k d ∙ same q s;
      }
    where
      map_err-eq-ok : (r : Result IoError (Unit {0})) → map_err io r ≡ ok tt → r ≡ ok tt
      map_err-eq-ok (ok u) h = refl
      map_err-eq-ok (err e) h = cc

      same_old : {x y z w : Option Node} → x ≡ y → (z ≡ x) ⊎ (z ≡ w) → (z ≡ y) ⊎ (z ≡ w)
      same_old e (inl f) = inl (f ∙ e)
      same_old e (inr f) = inr f

  -- A save of a key, from any state of the file system and with any failures: the record file holds
  -- what it held or the whole encoded key with mode 0600; only the temporary names and the
  -- permissions of the directory can differ besides. On success the key was valid, the file is the
  -- new one, and every other file is as it was.
  pub save-SavesKey : (fs : Files) → SavesKey fs (save store process key fs)
  unfolding save validate_record
  save-SavesKey fs =
      then_do-post (SavesKey fs) (validate_record key, fs) _ (λ e _. stopped fs fs e (λ q h. refl))
        λ _ checked.
          let valid = fail_if-eq-ok (record_invalid key) invalid_record checked in
          then_do-post (SavesKey fs) (encode key, fs) _ (λ e _. stopped fs fs e (λ q h. refl))
            λ bytes encoded.
              then_do-post (SavesKey fs) (from_io (ensure_private_directory store) fs) _
                (λ e _. stopped fs _ e (ensure_private_directory-SameBut store fs))
                λ _ _.
                  subst
                    (λ b. SavesKey fs (
                      from_io
                        (save_bytes store (temporary_name process key.summary.id)
                          (path_for store key.summary.id) b)
                        (from_io (ensure_private_directory store) fs).1))
                    (ok-injective {E = StoreError} (sym (encode_valid key valid) ∙ encoded))
                    (written fs _ valid (ensure_private_directory-SameBut store fs))

-- A key with UTF-8 texts that a save has stored successfully is loaded as that key from the state
-- that the save has left, or the read fails; nothing else is returned.
pub load-save :
    (store : FilePath) (process : ℕ) (key : StoredKey) (fs : Files)
    → IsTyped key
    → (save store process key fs).0 ≡ ok tt
    → (load store key.summary.id (save store process key fs).1).0
      ≡ (elim (next_fault (save store process key fs).1) [
        | none ↦ ok key
        | some f ↦ err (io f.error)
      ])
unfolding load read from_io unless_fault found contents then_do
load-save store process key fs typed h =
    let (valid, here, _) = (save-SavesKey store process key fs).success h in
    ground (
      arith,
      here,
      decode-record_bytes key typed valid,
      node_at-tick (path_for store key.summary.id) (save store process key fs).1,
    )

-- ===== src/Examples/Stores.antt =====
-- The key store at concrete inputs.
use keyvisor.Store.Refinement.{IsInserted, view, IsErased, SameElsewhere, store-IsMap}
use keyvisor.Wire.Endian.{Bytes, AreBytes}
use keyvisor.Wire.Utf8.{codes, ascii-IsText}
use keyvisor.Files.Paths.{FilePath}
use keyvisor.Store.Ops.{save, load, delete, path_for}
use keyvisor.Prelude.{
  ◌≡◌, refl, ◌≢◌, ◌↔◌, ◌⊎◌, false, none, some, List, [], ◌∷◌, ◌++◌, arith, All, ok, err, then_do,
}
use keyvisor.Core.{no_pin, ecdsa_nist_p256}
use keyvisor.Files.Defs.{Files, file, directory, other, next_fault, Node, node_at}
use keyvisor.Store.Defs.{StoredKey, encode, decode, record_invalid, validate_record, io}
use keyvisor.Store.Codec.{IsTyped, encode_valid, record_bytes}
use keyvisor.Store.Canonical.{decode-exact}
use keyvisor.Store.Listing.{list, read_dir}
use keyvisor.Store.Listed.{Ordered, IsListed, list_lem}
use keyvisor.Store.Saved.{SavesKey, save-SavesKey, load-save}

abbrev pub store : FilePath
store = codes "keys" ∷ []

abbrev calm_files : Files
calm_files = record { nodes = (store, directory 0o700) ∷ []; faults = [] }

-- The third operation fails.
abbrev failing_files : Files
failing_files = record {
  nodes = (store, directory 0o700) ∷ [];
  faults = none ∷ none ∷ some (record { error = other 28; written = 2 }) ∷ [];
}

abbrev pub key : StoredKey
key = record {
  summary = record {
    id = record { value = codes "ab" };
    name = codes "laptop";
    algorithm = ecdsa_nist_p256;
    use_policy = no_pin;
    public_key = 1 ∷ 2 ∷ [];
  };
  object = record {
    public = 3 ∷ [];
    wrapped_private = 4 ∷ [];
    parent_name = 5 ∷ [];
    use_policy = no_pin;
  };
}

key-IsTyped : IsTyped key
key-IsTyped = record {
  id_text = ascii-IsText (codes "ab") (omega arith);
  name_text = ascii-IsText (codes "laptop") (omega arith);
}

key_valid : record_invalid key ≡ false
unfolding record_invalid
key_valid = refl

record_bytes-AreBytes : AreBytes (record_bytes key)
unfolding record_bytes keyvisor.Wire.Endian.to_be_bytes keyvisor.Store.Defs.algorithm_tag
    keyvisor.Store.Defs.policy_tag
record_bytes-AreBytes = omega arith

decode-exact_example :
    (decode (record_bytes key) ≡ ok key)
    ↔ ((validate_record key ≡ ok tt) × (encode key ≡ ok (record_bytes key)) × IsTyped key)
decode-exact_example = decode-exact (record_bytes key) key record_bytes-AreBytes

pub decode-key : decode (record_bytes key) ≡ ok key
unfolding validate_record record_invalid keyvisor.Store.Defs.texts_invalid
    keyvisor.Store.Defs.blob_invalid
decode-key =
    (decode-exact (record_bytes key) key record_bytes-AreBytes).1
      (refl, encode_valid key key_valid, key-IsTyped)

save-SavesKey_example : SavesKey store 7 key failing_files (save store 7 key failing_files)
save-SavesKey_example = save-SavesKey store 7 key failing_files

save_works : (save store 7 key calm_files).0 ≡ ok tt
unfolding keyvisor.Files.Defs.unless_fault keyvisor.Files.Defs.next_fault keyvisor.Files.Defs.found
    keyvisor.Files.Defs.node_at keyvisor.Files.Defs.tick keyvisor.Prelude.then_do
    keyvisor.Files.Defs.set_permissions keyvisor.Files.Defs.create_new keyvisor.Files.Defs.put
    keyvisor.Files.Defs.append_to keyvisor.Files.Defs.create_directory keyvisor.Files.Defs.delete
    keyvisor.Files.Defs.grown keyvisor.Files.Defs.remove_file keyvisor.Files.Defs.rename
    keyvisor.Files.Defs.sync_all keyvisor.Files.Defs.sync_directory keyvisor.Files.Defs.with_mode
    keyvisor.Files.Defs.write_all keyvisor.Files.Defs.symlink_metadata keyvisor.Files.Defs.read
    keyvisor.Files.Defs.contents keyvisor.Files.Paths.lookup keyvisor.Files.Paths.path_eq
    keyvisor.Files.Paths.insert keyvisor.Files.Paths.remove keyvisor.Files.Atomic.clean_up
    keyvisor.Files.Atomic.commit keyvisor.Files.Atomic.replace_file keyvisor.Files.Save.retry
    keyvisor.Files.Save.save_bytes keyvisor.Files.Save.attempt_from
    keyvisor.Files.Save.create_temporary_file keyvisor.Files.Private.ensure_found
    keyvisor.Files.Private.ensure_private_directory keyvisor.Store.Defs.validate_record
    keyvisor.Store.Defs.record_invalid keyvisor.Store.Defs.texts_invalid
    keyvisor.Store.Defs.blob_invalid keyvisor.Store.Names.file_name keyvisor.Store.Names.file_stem
    keyvisor.Store.Ops.save keyvisor.Store.Ops.from_io keyvisor.Store.Ops.path_for
    keyvisor.Store.Ops.temporary_name keyvisor.Wire.Decimal.to_string keyvisor.Wire.Hex.hex
    keyvisor.Wire.Hex.lower_digit
save_works = rw (encode_valid key key_valid) refl

load-save_example :
    (load store key.summary.id (save store 7 key calm_files).1).0
    ≡ (elim (next_fault (save store 7 key calm_files).1) [
      | none ↦ ok key
      | some f ↦ err (io f.error)
    ])
load-save_example = load-save store 7 key calm_files key-IsTyped save_works

-- A directory with one key and a file of another kind.
abbrev entries : List (Bytes × Node)
entries = (codes "ab.key", file 0o600 (record_bytes key)) ∷ (codes "note", file 0o600 []) ∷ []

abbrev pub filled_files : Files
filled_files = record {
  nodes =
      (store, directory 0o700)
      ∷ (store ++ codes "ab.key" ∷ [], file 0o600 (record_bytes key))
      ∷ (store ++ codes "note" ∷ [], file 0o600 [])
      ∷ [];
  faults = [];
}

entries_found : (read_dir store filled_files).0 ≡ ok entries
unfolding keyvisor.Files.Defs.unless_fault keyvisor.Files.Defs.next_fault keyvisor.Files.Defs.found
    keyvisor.Files.Defs.node_at keyvisor.Files.Defs.tick keyvisor.Prelude.then_do
    keyvisor.Files.Defs.set_permissions keyvisor.Files.Defs.create_new keyvisor.Files.Defs.put
    keyvisor.Files.Defs.append_to keyvisor.Files.Defs.create_directory keyvisor.Files.Defs.delete
    keyvisor.Files.Defs.grown keyvisor.Files.Defs.remove_file keyvisor.Files.Defs.rename
    keyvisor.Files.Defs.sync_all keyvisor.Files.Defs.sync_directory keyvisor.Files.Defs.with_mode
    keyvisor.Files.Defs.write_all keyvisor.Files.Defs.symlink_metadata keyvisor.Files.Defs.read
    keyvisor.Files.Defs.contents keyvisor.Files.Paths.lookup keyvisor.Files.Paths.path_eq
    keyvisor.Files.Paths.insert keyvisor.Files.Paths.remove keyvisor.Store.Listing.read_dir
    keyvisor.Store.Listing.entries_of keyvisor.Store.Listing.children
    keyvisor.Store.Listing.child_of
entries_found = refl

pub key_listed : (list store filled_files).0 ≡ ok (key ∷ [])
unfolding keyvisor.Files.Defs.unless_fault keyvisor.Files.Defs.next_fault keyvisor.Files.Defs.found
    keyvisor.Files.Defs.node_at keyvisor.Files.Defs.tick keyvisor.Prelude.then_do
    keyvisor.Files.Defs.set_permissions keyvisor.Files.Defs.create_new keyvisor.Files.Defs.put
    keyvisor.Files.Defs.append_to keyvisor.Files.Defs.create_directory keyvisor.Files.Defs.delete
    keyvisor.Files.Defs.grown keyvisor.Files.Defs.remove_file keyvisor.Files.Defs.rename
    keyvisor.Files.Defs.sync_all keyvisor.Files.Defs.sync_directory keyvisor.Files.Defs.with_mode
    keyvisor.Files.Defs.write_all keyvisor.Files.Defs.symlink_metadata keyvisor.Files.Defs.read
    keyvisor.Files.Defs.contents keyvisor.Files.Paths.lookup keyvisor.Files.Paths.path_eq
    keyvisor.Files.Paths.insert keyvisor.Files.Paths.remove keyvisor.Store.Listing.list
    keyvisor.Store.Listing.list_entries keyvisor.Store.Listing.read_dir
    keyvisor.Store.Listing.entries_of keyvisor.Store.Listing.children
    keyvisor.Store.Listing.child_of keyvisor.Store.Listing.read_records
    keyvisor.Store.Listing.read_record keyvisor.Store.Listing.has_key_extension
    keyvisor.Store.Listing.insert_key keyvisor.Store.Listing.sort_keys
    keyvisor.Store.Listing.is_less keyvisor.Store.Ops.from_io
key_listed = rw decode-key refl

list_lem_example :
    Ordered (key ∷ []) × All (IsListed store (key ∷ []) (read_dir store filled_files).1) entries
list_lem_example = list_lem store filled_files entries (key ∷ []) entries_found key_listed

store-IsMap_example :
    (((save store 7 key failing_files).0 ≢ ok tt)
      ⊎ IsInserted store failing_files (save store 7 key failing_files).1 key)
    × ((view store (save store 7 key failing_files).1 key.summary.id
          ≡ view store failing_files key.summary.id)
        ⊎ (view store (save store 7 key failing_files).1 key.summary.id ≡ some key))
    × (((delete store key.summary.id failing_files).0 ≢ ok tt)
        ⊎ IsErased store failing_files (delete store key.summary.id failing_files).1 key.summary.id)
    × SameElsewhere key.summary.id
        (view store failing_files)
        (view store (delete store key.summary.id failing_files).1)
store-IsMap_example = store-IsMap store 7 key failing_files key-IsTyped (omega arith)

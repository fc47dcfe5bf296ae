-- ===== src/Examples/Histories.antt =====
-- The signing history at concrete inputs.
use keyvisor.Wire.Endian.{AreBytes}
use keyvisor.Wire.Utf8.{codes, ascii-IsText}
use keyvisor.Files.Paths.{FilePath}
use keyvisor.Prelude.{
  ℕ, ◌+◌, ◌-◌, ◌≤◌, ◌≡◌, refl, ◌≢◌, ◌↔◌, none, some, List, [], ◌∷◌, ◌++◌, arith, length, drop, All,
  ok,
}
use keyvisor.Core.{tpm_pin}
use keyvisor.Files.Defs.{Files, file, directory, other, calm}
use keyvisor.Files.Atomic.{replace_file}
use keyvisor.Files.Save.{IsAtomic, save_bytes-IsAtomic, save_bytes, temporary_path}
use keyvisor.History.Defs.{HistoryEntry, encode, decode, succeeded, max_entries}
use keyvisor.History.Ops.{append, list, newest, temporary_name, parent}
use keyvisor.History.Codec.{IsTyped, encode_lem, file_bytes, all_valid}
use keyvisor.History.Canonical.{decode_history-exact}
use keyvisor.History.Bounded.{append-list, HoldsBytes}

abbrev folder : FilePath
folder = codes "data" ∷ []

abbrev path : FilePath
path = folder ++ codes "history.bin" ∷ []

abbrev calm_files : Files
calm_files = record { nodes = (folder, directory 0o700) ∷ []; faults = [] }

-- The fourth operation fails, after two bytes have been written.
abbrev failing_files : Files
failing_files = record {
  nodes = (folder, directory 0o700) ∷ (path, file 0o600 (1 ∷ [])) ∷ [];
  faults = none ∷ none ∷ none ∷ some (record { error = other 28; written = 2 }) ∷ [];
}

abbrev entry : HistoryEntry
entry = record {
  timestamp_seconds = 1700000000;
  key_id = record { value = codes "ab" };
  key_name = codes "laptop";
  use_policy = tpm_pin;
  outcome = succeeded;
}

entry-IsTyped : IsTyped entry
entry-IsTyped = record {
  seconds = omega arith;
  id_text = ascii-IsText (codes "ab") (omega arith);
  name_text = ascii-IsText (codes "laptop") (omega arith);
}

encoded : encode (entry ∷ []) ≡ ok (file_bytes (entry ∷ []))
unfolding all_valid keyvisor.History.Defs.entry_invalid
encoded = encode_lem (entry ∷ [])

file_bytes-AreBytes : AreBytes (file_bytes (entry ∷ []))
unfolding file_bytes keyvisor.Wire.Endian.to_be_bytes keyvisor.History.Codec.entries_bytes
    keyvisor.History.Codec.entry_bytes keyvisor.History.Defs.policy_tag
    keyvisor.History.Defs.outcome_tag
file_bytes-AreBytes = omega arith

decode_history-exact_example :
    (decode (file_bytes (entry ∷ [])) ≡ ok (entry ∷ []))
    ↔ ((encode (entry ∷ []) ≡ ok (file_bytes (entry ∷ []))) × All IsTyped (entry ∷ []))
decode_history-exact_example =
    decode_history-exact (file_bytes (entry ∷ [])) (entry ∷ []) file_bytes-AreBytes

apart : (k : ℕ) → temporary_path folder (temporary_name 7) k ≢ path
unfolding temporary_name
apart k h = cc

save_bytes-IsAtomic_example :
    IsAtomic folder
      (temporary_name 7)
      path
      (1 ∷ 2 ∷ 3 ∷ [])
      apart
      failing_files
      (save_bytes folder (temporary_name 7) path (1 ∷ 2 ∷ 3 ∷ []) failing_files)
save_bytes-IsAtomic_example =
    save_bytes-IsAtomic folder (temporary_name 7) path (1 ∷ 2 ∷ 3 ∷ []) apart failing_files

holds : HoldsBytes path calm_files
unfolding keyvisor.Files.Defs.node_at keyvisor.Files.Paths.lookup keyvisor.Files.Paths.path_eq
holds mode bytes h = cc

append_works : (append path 7 entry calm_files).0 ≡ ok tt
unfolding keyvisor.Files.Defs.unless_fault keyvisor.Files.Defs.next_fault keyvisor.Files.Defs.found
    keyvisor.Files.Defs.node_at keyvisor.Files.Defs.tick keyvisor.Prelude.then_do
    keyvisor.Files.Defs.set_permissions keyvisor.Files.Defs.create_new keyvisor.Files.Defs.put
    keyvisor.Files.Defs.append_to keyvisor.Files.Defs.create_directory keyvisor.Files.Defs.delete
    keyvisor.Files.Defs.grown keyvisor.Files.Defs.remove_file keyvisor.Files.Defs.rename
    keyvisor.Files.Defs.sync_all keyvisor.Files.Defs.sync_directory keyvisor.Files.Defs.with_mode
    keyvisor.Files.Defs.write_all keyvisor.Files.Defs.symlink_metadata keyvisor.Files.Defs.read
    keyvisor.Files.Defs.contents keyvisor.Files.Paths.lookup keyvisor.Files.Paths.path_eq
    keyvisor.Files.Paths.insert keyvisor.Files.Paths.remove keyvisor.Files.Atomic.clean_up
    keyvisor.Files.Atomic.commit keyvisor.Files.Atomic.replace_file keyvisor.Files.Save.retry
    keyvisor.Files.Save.save_bytes keyvisor.Files.Save.attempt_from
    keyvisor.Files.Save.create_temporary_file keyvisor.Files.Private.ensure_found
    keyvisor.Files.Private.ensure_private_directory keyvisor.History.Defs.validate_entry
    keyvisor.History.Defs.entry_invalid keyvisor.History.Ops.append keyvisor.History.Ops.list
    keyvisor.History.Ops.list_found keyvisor.History.Ops.save keyvisor.History.Ops.save_in
    keyvisor.History.Ops.from_io keyvisor.History.Ops.temporary_name keyvisor.History.Ops.parent
    keyvisor.History.Ops.newest keyvisor.Wire.Decimal.to_string
append_works = rw encoded refl

append-list_example :
    (old : List HistoryEntry) × ((list path calm_files).0 ≡ ok old)
    × ((list path (calm (append path 7 entry calm_files).1)).0
        ≡ ok (drop (length old + 1 - max_entries) (old ++ entry ∷ [])))
    × (length (drop (length old + 1 - max_entries) (old ++ entry ∷ [])) ≤ max_entries)
append-list_example =
    append-list path folder 7 (unfold parent in refl) apart entry calm_files entry-IsTyped holds
      append_works

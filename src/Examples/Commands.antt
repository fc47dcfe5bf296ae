-- ===== src/Examples/Commands.antt =====
-- The commands at concrete arguments and inputs.
use keyvisor.Cli.Complete.{IsComplete}
use keyvisor.Cli.Confirmed.{IsConfirmed}
use keyvisor.Examples.Stores.{decode-key}
use keyvisor.Files.Defs.{Files, directory, file}
use keyvisor.Store.Codec.{record_bytes}
use keyvisor.Wire.Utf8.{is_utf8, ascii-IsText}
use keyvisor.Cli.Removed.{delete_key-lem}
use keyvisor.Store.Ops.{path_for}
use keyvisor.Files.Defs.{node_at}
use keyvisor.Cli.Created.{IsAllowed, IsMadeKey, create_key-IsMadeKey}
use keyvisor.Examples.Library.{library}
use keyvisor.Files.Paths.{FilePath}
use keyvisor.Tpm.Defs.{TpmError, TpmAuthorization}
use keyvisor.Cli.Commands.{delete_key}
use keyvisor.Cli.Accepted.{IsWritten, create_options_iff}
use keyvisor.Core.{tpm_pin, KeyUsePolicy}
use keyvisor.Cli.Defs.{CliError, not_utf8}
use keyvisor.Cli.SaidLines.{read_pin-Says}
use keyvisor.Cli.Echo.{read_pin-Echoes}
use keyvisor.Wire.Lines.{newline}
use keyvisor.Cli.Create.{Setup, Shell, create_key}
use keyvisor.Cli.Supervised.{IsCareful, recorded, supervise-IsCareful}
use keyvisor.Wire.Utf8.{codes}
use keyvisor.Cli.Rows.{read_key, rows, text_of, described, read_key-key_lines}
use keyvisor.Cli.Tables.{Encoders, key_lines, fingerprint}
use keyvisor.Cli.SentLines.{AreLines}
use keyvisor.Cli.Bounded.{IsAccepted, read_pin-IsAccepted}
use keyvisor.Cli.Secrets.{read_existing_pin, read_new_pin}
use keyvisor.Cli.Console.{Console}
use keyvisor.Wire.Endian.{Bytes}
use keyvisor.Prelude.{
  ℕ, suc, ◌≡◌, refl, ◌≢◌, ◌↔◌, ◌⊎◌, inr, true, false, none, some, List, [], ◌∷◌, ◌++◌, map, arith,
  drop, Result, ok, err, then_do,
}
use keyvisor.Cli.Exec.{Round, supervise}
use keyvisor.Cli.Arguments.{terminal, pinentry, stdin, CreateOptions, create_options, initial, tsv}
use keyvisor.Examples.Stores.{store, key}

abbrev arguments : List Bytes
arguments =
    codes "--name"
    ∷ codes " Work "
    ∷ codes "--authorization"
    ∷ codes "pin"
    ∷ codes "--pin-stdin"
    ∷ []

abbrev options : CreateOptions
options = record initial { name = some (codes "Work"); policy = some tpm_pin; secret_input = stdin }

create_options_iff_example :
    (create_options initial arguments ≡ ok options) ↔ IsWritten initial arguments options
create_options_iff_example = create_options_iff initial options arguments

-- A line on the standard input, a terminal, and a dialog that gives no answer.
abbrev console : Console
console = record {
  terminals =
      record {
        opens = true;
        prompts = true;
        inspects = true;
        hides = true;
        restores = true;
        ends_line = true;
        typed = codes "123456" ++ newline ∷ [];
      }
      ∷ [];
  dialogs =
      record {
        starts = true;
        accepts = 4;
        output = codes "OK" ++ newline ∷ [];
        waits = true;
        succeeds = true;
      }
      ∷ [];
  standard_input = codes "123456" ++ newline ∷ [];
  echo = true;
  sent = [];
}

pin_read : (read_existing_pin false (codes "Work") stdin console).0 ≡ ok (codes "123456")
unfolding read_existing_pin keyvisor.Wire.Reader.pop_if keyvisor.Wire.Reader.read_until
pin_read = refl

read_pin-IsAccepted_example : IsAccepted (codes "123456")
read_pin-IsAccepted_example =
    read_pin-IsAccepted false (codes "Work") stdin console (codes "123456") (inr pin_read)

read_pin-Echoes_example :
    ((read_new_pin false (codes "Work") terminal console).1.echo ≡ true)
    × ((read_existing_pin false (codes "Work") terminal console).1.echo ≡ true)
read_pin-Echoes_example = read_pin-Echoes false (codes "Work") terminal console (refl, tt)

-- A name with a line end.
abbrev two_lines : Bytes
two_lines = codes "Work" ++ newline ∷ codes "BYE"

read_pin-Says_example :
    AreLines (read_new_pin true two_lines pinentry console).1.sent
    × AreLines (read_existing_pin true two_lines pinentry console).1.sent
read_pin-Says_example = read_pin-Says true two_lines pinentry console (omega arith) tt

-- Encoders that keep the first bytes.
abbrev encoders : Encoders
encoders = record { sha256 = λ s. s; no_pad = λ s. codes "aa"; padded = λ s. codes "aa" }

read_key-key_lines_example :
    map read_key (drop 2 (rows (text_of (key_lines encoders tsv (key ∷ [])))))
    ≡ map (described encoders) (key ∷ [])
read_key-key_lines_example = read_key-key_lines encoders (key ∷ []) (
    (
      (
        (omega arith, (omega arith, omega arith)),
        unfold fingerprint in (omega arith, (omega arith, omega arith)),
      ),
      tt,
    ))

-- Two rounds in which requests wait, the second with two of them.
abbrev waiting : List Round
waiting =
    record { status = ok none; requests = ok ((codes "1", codes "Work") ∷ []) }
    ∷ record {
      status = ok none;
      requests = ok ((codes "2", codes "Work") ∷ (codes "3", codes "Home") ∷ []);
    }
    ∷ []

abbrev count : Bytes → Bytes → ℕ → Result CliError (Unit {0}) × ℕ
count id key_name n = (ok tt, suc n)

supervise-IsCareful_example :
    IsCareful count waiting [] (supervise (recorded count) waiting (0, [])).1
supervise-IsCareful_example = supervise-IsCareful count waiting 0 []

abbrev setup : Setup
setup = record {
  graphical = false;
  process = 7;
  store = ok store;
  history = err not_utf8;
  config = err not_utf8;
}

-- The store with one key, under its name in hexadecimal.
abbrev key_files : Files
key_files = record {
  nodes =
      (store, directory 0o700)
      ∷ (store ++ codes "6162.key" ∷ [], file 0o600 (record_bytes key))
      ∷ [];
  faults = [];
}

abbrev shell : Shell
shell = record { console = console; files = key_files; printed = [] }

id-IsText : is_utf8 (codes "ab") ≡ true
id-IsText = ascii-IsText (codes "ab") (omega arith)

key_deleted : (delete_key setup (codes "ab" ∷ codes "--yes" ∷ []) shell).0 ≡ ok tt
unfolding keyvisor.Cli.Commands.delete_key keyvisor.Store.Ops.path_for
    keyvisor.Store.Listing.read_record keyvisor.Store.Listing.read_records
    keyvisor.Files.Defs.node_at keyvisor.Files.Defs.next_fault keyvisor.Files.Defs.tick
    keyvisor.Files.Defs.delete keyvisor.Files.Defs.unless_fault keyvisor.Files.Defs.symlink_metadata
    keyvisor.Files.Defs.read keyvisor.Files.Defs.sync_all keyvisor.Files.Defs.sync_directory
    keyvisor.Files.Defs.remove_file keyvisor.Files.Paths.path_eq keyvisor.Files.Paths.lookup
    keyvisor.Files.Paths.remove keyvisor.Store.Names.file_stem keyvisor.Store.Names.file_name
    keyvisor.Wire.Hex.hex keyvisor.Wire.Utf8.from_utf8 keyvisor.Prelude.then_do
key_deleted = rw (id-IsText, decode-key) refl

delete_key-lem_example :
    let after = delete_key setup (codes "ab" ∷ codes "--yes" ∷ []) shell in
    (id : Bytes) × (directory' : FilePath) × ((codes "ab" ∷ codes "--yes" ∷ []
        ≡ id ∷ codes "--yes" ∷ [])
      ⊎ (codes "ab" ∷ codes "--yes" ∷ [] ≡ id ∷ []) × IsConfirmed console)
    × (setup.store ≡ ok directory')
    × (node_at (path_for directory' (record { value = id })) after.1.files ≡ none)
    × ((q : FilePath)
        → q ≢ path_for directory' (record { value = id })
        → node_at q after.1.files ≡ node_at q key_files)
delete_key-lem_example = delete_key-lem setup (codes "ab" ∷ codes "--yes" ∷ []) shell key_deleted

-- A run that makes a key without a PIN.
abbrev create_arguments : List Bytes
create_arguments =
    codes "--name" ∷ codes "Work" ∷ codes "--authorization" ∷ codes "none" ∷ codes "--yes" ∷ []

abbrev connected : Result TpmError (ℕ × Bytes)
connected = ok (1, 9 ∷ [])

abbrev before : Shell × List ℕ
before = (shell, 4 ∷ [])

is_utf8_Work : is_utf8 (codes "Work") ≡ true
is_utf8_Work = ascii-IsText (codes "Work") (omega arith)

key_created : (create_key (library true) connected setup create_arguments before).0 ≡ ok tt
unfolding keyvisor.Cli.Create.create_key keyvisor.Store.Ops.temporary_name
    keyvisor.Store.Ops.path_for keyvisor.Store.Defs.record_invalid
    keyvisor.Store.Defs.validate_record keyvisor.Store.Defs.push_bytes keyvisor.Store.Defs.encode
    keyvisor.Files.Defs.node_at keyvisor.Files.Defs.next_fault keyvisor.Files.Defs.tick
    keyvisor.Files.Defs.put keyvisor.Files.Defs.delete keyvisor.Files.Defs.unless_fault
    keyvisor.Files.Defs.symlink_metadata keyvisor.Files.Defs.create_new
    keyvisor.Files.Defs.append_to keyvisor.Files.Defs.write_all keyvisor.Files.Defs.sync_all
    keyvisor.Files.Defs.sync_directory keyvisor.Files.Defs.rename
    keyvisor.Files.Defs.set_permissions keyvisor.Files.Paths.path_eq keyvisor.Files.Paths.lookup
    keyvisor.Files.Paths.remove keyvisor.Files.Paths.insert keyvisor.Files.Atomic.commit
    keyvisor.Files.Atomic.clean_up keyvisor.Files.Atomic.replace_file keyvisor.Files.Save.retry
    keyvisor.Files.Save.save_bytes keyvisor.Store.Names.file_stem keyvisor.Wire.Hex.hex
    keyvisor.Wire.Utf8.from_utf8 keyvisor.Wire.Endian.to_be_bytes keyvisor.Wire.Decimal.to_string
    keyvisor.Core.ssh_key_type keyvisor.Core.ssh_curve_name keyvisor.Core.ecdsa_component_size
    keyvisor.Tpm.Esapi.both keyvisor.Tpm.Esapi.ssh_public_key keyvisor.Tpm.Codec.append_padded
    keyvisor.Tpm.Codec.authorization_value keyvisor.Tpm.Template.create_public
    keyvisor.Tpm.Template.validate_public keyvisor.Prelude.then_do
key_created = rw (is_utf8_Work) refl

create_key-IsMadeKey_example :
    (chosen_options : CreateOptions) × IsWritten initial create_arguments chosen_options
    × ((name : Bytes) × (policy : KeyUsePolicy) × (given : TpmAuthorization) × IsComplete
          chosen_options name policy
        × IsAllowed chosen_options policy given console
        × IsMadeKey
            (library true)
            connected
            setup
            name
            chosen_options.algorithm
            given
            before
            (create_key (library true) connected setup create_arguments before).1)
create_key-IsMadeKey_example =
    create_key-IsMadeKey (library true) connected setup create_arguments shell (4 ∷ []) key_created

-- ===== src/Examples/Settings.antt =====
-- The settings at concrete inputs.
use keyvisor.Config.Settings.{IsShown}
use keyvisor.Cli.Configured.{calm_shell, config_get-config_set}
use keyvisor.Files.Paths.{FilePath}
use keyvisor.Wire.Utf8.{codes, is_utf8, ascii-IsText}
use keyvisor.Wire.Endian.{Bytes}
use keyvisor.Files.Defs.{Files, directory}
use keyvisor.Files.Save.{temporary_path}
use keyvisor.History.Ops.{parent}
use keyvisor.Config.Ops.{load, temporary_name}
use keyvisor.Cli.Create.{Shell}
use keyvisor.Cli.Commands.{config_get, config_set}
use keyvisor.Prelude.{ℕ, ◌≡◌, refl, ◌≢◌, true, false, some, [], ◌∷◌, ◌++◌, arith, ok, then_do}
use keyvisor.Config.Defs.{Config, set, get, history_name}

abbrev folder : FilePath
folder = codes "settings" ∷ []

abbrev path : FilePath
path = folder ++ codes "config" ∷ []

abbrev files : Files
files = record { nodes = (folder, directory 0o700) ∷ []; faults = [] }

apart : (k : ℕ) → temporary_path folder (temporary_name 7) k ≢ path
unfolding temporary_name
apart k h = cc

abbrev shell : Shell
shell = record {
  console = record { terminals = []; dialogs = []; standard_input = []; echo = true; sent = [] };
  files = files;
  printed = [];
}

history_name-IsText : is_utf8 history_name ≡ true
history_name-IsText = ascii-IsText history_name (omega arith)

off-IsText : is_utf8 (codes "false") ≡ true
off-IsText = ascii-IsText (codes "false") (omega arith)

setting_works : (config_set 7 path history_name (codes "false") shell).0 ≡ ok tt
unfolding keyvisor.Cli.Commands.run_config keyvisor.Config.Ops.temporary_name
    keyvisor.History.Ops.parent keyvisor.History.Ops.append keyvisor.Files.Defs.node_at
    keyvisor.Files.Defs.next_fault keyvisor.Files.Defs.tick keyvisor.Files.Defs.put
    keyvisor.Files.Defs.delete keyvisor.Files.Defs.unless_fault keyvisor.Files.Defs.symlink_metadata
    keyvisor.Files.Defs.create_new keyvisor.Files.Defs.append_to keyvisor.Files.Defs.write_all
    keyvisor.Files.Defs.sync_all keyvisor.Files.Defs.sync_directory keyvisor.Files.Defs.rename
    keyvisor.Files.Paths.path_eq keyvisor.Files.Paths.lookup keyvisor.Files.Paths.remove
    keyvisor.Files.Paths.insert keyvisor.Files.Save.retry keyvisor.Files.Save.save_bytes
    keyvisor.Files.Atomic.commit keyvisor.Files.Atomic.clean_up keyvisor.Files.Atomic.replace_file
    keyvisor.Wire.Utf8.from_utf8 keyvisor.Wire.Decimal.to_string keyvisor.Prelude.then_do
setting_works = rw (history_name-IsText, off-IsText) refl

config_get-config_set_example :
    let after = config_set 7 path history_name (codes "false") shell in
    (before' : Config) × (after' : Config) × (text : Bytes) × ((load path files).0 ≡ ok before')
    × (set before' history_name (codes "false") ≡ ok after')
    × (get after' history_name ≡ some text)
    × IsShown history_name (codes "false") text
    × ((config_get path history_name (calm_shell after.1)).0 ≡ ok tt)
    × ((config_get path history_name (calm_shell after.1)).1.printed ≡ after.1.printed ++ text ∷ [])
config_get-config_set_example =
    config_get-config_set 7 path folder history_name (codes "false") shell (unfold parent in refl)
      apart setting_works

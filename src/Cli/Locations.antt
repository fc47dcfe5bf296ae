-- ===== src/Cli/Locations.antt =====
-- Where the command line finds the program's files.
use keyvisor.Wire.Utf8.{codes}
use keyvisor.Files.Paths.{FilePath}
use keyvisor.Cli.Defs.{CliError, home_not_set, runtime_not_set}
use keyvisor.Files.Environment.{set_var, join_path, components, Environment}
use keyvisor.Cli.Control.{ok_or}
use keyvisor.Prelude.{none, some, Result, ok, ◌>>=◌}

unfoldable pub home_directory : Environment → Result CliError FilePath
unfolding ok_or components
home_directory environment = do
  home ← ok_or home_not_set (environment (codes "HOME"))
  ok (components home)

unfoldable pub data_directory : Environment → Result CliError FilePath
unfolding set_var home_directory join_path components
data_directory environment = elim (set_var environment (codes "XDG_DATA_HOME")) [
  | some data_home ↦ ok (join_path (components data_home) (codes "me.nexryai.keyvisor"))
  | none ↦ home_directory environment >>= λ home.
      ok (join_path home (codes ".local/share/me.nexryai.keyvisor"))
]

unfoldable pub config_path : Environment → Result CliError FilePath
unfolding set_var home_directory join_path components
config_path environment = elim (set_var environment (codes "XDG_CONFIG_HOME")) [
  | some config_home ↦ ok (join_path (components config_home) (codes "me.nexryai.keyvisor/config"))
  | none ↦ home_directory environment >>= λ home.
      ok (join_path home (codes ".config/me.nexryai.keyvisor/config"))
]

unfoldable pub store_directory : Environment → Result CliError FilePath
unfolding data_directory join_path
store_directory environment =
    data_directory environment >>= λ path. ok (join_path path (codes "keys"))

unfoldable pub history_path : Environment → Result CliError FilePath
unfolding data_directory join_path
history_path environment =
    data_directory environment >>= λ path. ok (join_path path (codes "history.bin"))

unfoldable pub control_socket_path : Environment → Result CliError FilePath
unfolding set_var ok_or join_path components
control_socket_path environment = elim (set_var environment (codes "KEYVISOR_CONTROL_SOCKET")) [
  | some path ↦ ok (components path)
  | none ↦ ok_or runtime_not_set (environment (codes "XDG_RUNTIME_DIR")) >>= λ runtime.
      ok (join_path (components runtime) (codes "keyvisor/control.sock"))
]

-- ===== src/Agent/Locations.antt =====
-- Where the agent finds the program's files.
use keyvisor.Cli.Control.{ok_or}
use keyvisor.Cli.Locations.{
  store_directory, history_path, config_path, control_socket_path, data_directory, home_directory,
}
use keyvisor.Wire.Utf8.{codes}
use keyvisor.Files.Paths.{FilePath}
use keyvisor.Files.Environment.{set_var, join_path, Environment, components}
use keyvisor.Wire.Endian.{Bytes}
use keyvisor.Prelude.{
  ◌≡◌, refl, ap, inl, inr, Option, none, some, append_assoc, Option-cases, Result, ok, err, ◌>>=◌,
  some-injective,
}

-- A variable that a path needs and that is not set.
pub data MissingVariable : Type 0 where
  data_home_missing config_home_missing agent_runtime_missing control_runtime_missing :
      MissingVariable

unfoldable pub variable : MissingVariable → Option Bytes → Result MissingVariable Bytes
variable e none = err e
variable e (some value) = ok value

unfoldable pub default_data_directory : Environment → Result MissingVariable FilePath
unfolding set_var variable join_path components
default_data_directory environment = elim (set_var environment (codes "XDG_DATA_HOME")) [
  | some data_home ↦ ok (join_path (components data_home) (codes "me.nexryai.keyvisor"))
  | none ↦ variable data_home_missing (environment (codes "HOME")) >>= λ home.
      ok (
        join_path (join_path (components home) (codes ".local/share"))
          (codes "me.nexryai.keyvisor"))
]

unfoldable pub default_store_directory : Environment → Result MissingVariable FilePath
unfolding default_data_directory join_path
default_store_directory environment =
    default_data_directory environment >>= λ path. ok (join_path path (codes "keys"))

unfoldable pub default_history_path : Environment → Result MissingVariable FilePath
unfolding default_data_directory join_path
default_history_path environment =
    default_data_directory environment >>= λ path. ok (join_path path (codes "history.bin"))

unfoldable pub default_config_path : Environment → Result MissingVariable FilePath
unfolding set_var variable join_path components
default_config_path environment = elim (set_var environment (codes "XDG_CONFIG_HOME")) [
  | some config_home ↦ ok (join_path (components config_home) (codes "me.nexryai.keyvisor/config"))
  | none ↦ variable config_home_missing (environment (codes "HOME")) >>= λ home.
      ok (join_path (components home) (codes ".config/me.nexryai.keyvisor/config"))
]

-- The socket of a variable, or the one of that name in the runtime directory.
unfoldable pub runtime_socket :
    Bytes → Bytes → MissingVariable → Environment → Result MissingVariable FilePath
unfolding set_var variable join_path components
runtime_socket name socket missing environment = elim (set_var environment name) [
  | some path ↦ ok (components path)
  | none ↦ variable missing (environment (codes "XDG_RUNTIME_DIR")) >>= λ runtime.
      ok (join_path (join_path (components runtime) (codes "keyvisor")) socket)
]

unfoldable pub default_socket_path : Environment → Result MissingVariable FilePath
unfolding runtime_socket
default_socket_path environment =
    runtime_socket (codes "KEYVISOR_AGENT_SOCKET") (codes "agent.sock") agent_runtime_missing
      environment

unfoldable pub default_control_socket_path : Environment → Result MissingVariable FilePath
unfolding runtime_socket
default_control_socket_path environment =
    runtime_socket (codes "KEYVISOR_CONTROL_SOCKET") (codes "control.sock") control_runtime_missing
      environment

-- What a result is, whatever its error says.
abbrev pub value_of : {E : Type 0} → Result E FilePath → Option FilePath
value_of (ok path) = some path
value_of (err e) = none

two_joins :
    (home : FilePath)
    → join_path (join_path home (codes ".local/share")) (codes "me.nexryai.keyvisor")
      ≡ join_path home (codes ".local/share/me.nexryai.keyvisor")
unfolding join_path components
two_joins home = append_assoc home _ _

bind-same :
    {E F : Type 0} (f : FilePath → FilePath) (m : Result E FilePath) (n : Result F FilePath)
    → value_of m ≡ value_of n
    → value_of (m >>= λ p. ok (f p)) ≡ value_of (n >>= λ p. ok (f p))
bind-same f (ok p) (ok q) h = ap (λ r. some (f r)) (some-injective h)
bind-same f (ok p) (err e) h = cc
bind-same f (err e) (ok q) h = cc
bind-same f (err d) (err e) h = refl

data_directory-same :
    (environment : Environment)
    → value_of (default_data_directory environment) ≡ value_of (data_directory environment)
unfolding default_data_directory data_directory home_directory ok_or variable
data_directory-same environment =
    elim (Option-cases (set_var environment (codes "XDG_DATA_HOME"))) [
      | inr (data_home, e) ↦ rw (default_data_directory, data_directory, e) refl
      | inl e ↦ elim (Option-cases (environment (codes "HOME"))) [
        | inl n ↦ rw (default_data_directory, data_directory, e, n) refl
        | inr (home, n) ↦
            rw (default_data_directory, data_directory, e, n)
              (ap some (two_joins (components home)))
      ]
    ]

config_path-same :
    (environment : Environment)
    → value_of (default_config_path environment) ≡ value_of (config_path environment)
unfolding default_config_path config_path home_directory ok_or variable
config_path-same environment = elim (Option-cases (set_var environment (codes "XDG_CONFIG_HOME"))) [
  | inr (config_home, e) ↦ rw (default_config_path, config_path, e) refl
  | inl e ↦ elim (Option-cases (environment (codes "HOME"))) [
    | inl n ↦ rw (default_config_path, config_path, e, n) refl
    | inr (home, n) ↦ rw (default_config_path, config_path, e, n) refl
  ]
]

socket_path-same :
    (environment : Environment)
    → value_of (default_control_socket_path environment)
      ≡ value_of (control_socket_path environment)
unfolding default_control_socket_path runtime_socket control_socket_path ok_or variable join_path
    components
socket_path-same environment =
    elim (Option-cases (set_var environment (codes "KEYVISOR_CONTROL_SOCKET"))) [
      | inr (path, e) ↦
          rw (default_control_socket_path, runtime_socket, control_socket_path, e) refl
      | inl e ↦ elim (Option-cases (environment (codes "XDG_RUNTIME_DIR"))) [
        | inl n ↦ rw (default_control_socket_path, runtime_socket, control_socket_path, e, n) refl
        | inr (runtime, n) ↦
            rw (default_control_socket_path, runtime_socket, control_socket_path, e, n)
              (ap some (append_assoc (components runtime) _ _))
      ]
    ]

-- The agent and the command line find the key store, the history, the configuration and the control
-- socket at the same paths, or neither finds one, whatever the environment that they share.
pub locations-same :
    (environment : Environment)
    → (value_of (default_store_directory environment) ≡ value_of (store_directory environment))
      × (value_of (default_history_path environment) ≡ value_of (history_path environment))
      × (value_of (default_config_path environment) ≡ value_of (config_path environment))
      × (value_of (default_control_socket_path environment)
          ≡ value_of (control_socket_path environment))
unfolding default_store_directory default_history_path store_directory history_path
locations-same environment =
    let same = data_directory-same environment in
    (
      bind-same (λ path. join_path path (codes "keys")) _ _ same,
      bind-same (λ path. join_path path (codes "history.bin")) _ _ same,
      config_path-same environment,
      socket_path-same environment,
    )

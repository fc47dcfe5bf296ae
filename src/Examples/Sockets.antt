-- ===== src/Examples/Sockets.antt =====
-- Sockets, paths, identifiers and the wait for a PIN at concrete values.
use keyvisor.Wire.Lines.{Lacks, newline}
use keyvisor.Agent.Guards.{activated-IsPrivate}
use keyvisor.Cli.Locations.{store_directory, history_path, config_path, control_socket_path}
use Prim.Native.Nat.{bit_and}
use keyvisor.Agent.Binding.{IsOwnSocket, bind_socket-IsOwnSocket}
use keyvisor.Agent.Delivered.{wait_pin-message}
use keyvisor.Wire.Words.{IsWord}
use keyvisor.Wire.Utf8.{codes, IsText}
use keyvisor.Agent.RequestIds.{request_id, request_id_lem}
use keyvisor.Agent.Locations.{
  value_of, default_store_directory, default_history_path, default_config_path,
  default_control_socket_path, locations-same,
}
use keyvisor.Files.Environment.{Environment}
use keyvisor.Agent.Sockets.{
  SocketNode, bind_socket, activated_or_bound_listener, Sockets, bind, at, metadata, create, call,
  look, bound, is_in_use, replace_stale, connects, answers, remove_file, unlink, finish_socket_bind,
  change_mode, check_activated, SocketError,
}
use keyvisor.Files.Paths.{FilePath, lookup, path_eq, remove, insert}
use keyvisor.Prelude.{
  ℕ, ◌≤◌, ◌≡◌, refl, ◌↔◌, ◌⊎◌, Bool, true, false, Option, none, some, [], ◌∷◌, arith, if◌then◌else◌,
  length, bytes_eq, Result, ok, then_do,
}
use keyvisor.Agent.PinEntry.{Round, message, empty, wait_pin, waits}

abbrev path : FilePath
path = codes "run" ∷ codes "agent.sock" ∷ []

-- A socket on which nobody listens, and a private one.
abbrev stale : SocketNode
stale = record { is_socket = true; mode = 0o755; owner = 1000; device = 0; inode = 4; live = false }

abbrev private : SocketNode
private = record {
  is_socket = true;
  mode = 0o600;
  owner = 1000;
  device = 0;
  inode = 5;
  live = true;
}

abbrev sockets : SocketNode → Sockets
sockets node = record { nodes = (path, node) ∷ []; next_inode = 9; faults = [] }

bind_socket-done : (bind_socket 1000 0o755 path (sockets stale)).0 ≡ ok tt
unfolding bind_socket bind create call at lookup path_eq bound is_in_use replace_stale metadata look
    connects answers remove_file unlink remove finish_socket_bind change_mode then_do insert
bind_socket-done = refl

bind_socket-IsOwnSocket_example :
    ((node : SocketNode) × (at path (bind_socket 1000 0o755 path (sockets stale)).1 ≡ some node)
      × IsOwnSocket 1000 node)
    × ((at path (sockets stale) ≡ none)
        ⊎ ((node : SocketNode) × (at path (sockets stale) ≡ some node) × (node.is_socket ≡ true)))
bind_socket-IsOwnSocket_example =
    bind_socket-IsOwnSocket 1000 0o755 path (sockets stale) bind_socket-done

activated :
    (activated_or_bound_listener 1000 0o755 1 (ok (some (ok (some path)))) path (sockets private)).0
    ≡ ok none
unfolding activated_or_bound_listener check_activated metadata call look at lookup path_eq then_do
activated = refl

activated-IsPrivate_example :
    (1 ≤ 1)
    × (◌≡◌ {A = Result SocketError (Option FilePath)} (ok (some path)) (ok (some path)))
    × ((node : SocketNode) × (at path (sockets private) ≡ some node)
        × (node.is_socket ≡ true)
        × (bit_and node.mode 0o777 ≡ 0o600)
        × (node.owner ≡ 1000))
activated-IsPrivate_example =
    activated-IsPrivate 1000 0o755 1 (ok (some path)) path (sockets private) activated

abbrev environment : Environment
environment name = if bytes_eq name (codes "HOME") then some (codes "/home/a") else none

locations-same_example :
    (value_of (default_store_directory environment) ≡ value_of (store_directory environment))
    × (value_of (default_history_path environment) ≡ value_of (history_path environment))
    × (value_of (default_config_path environment) ≡ value_of (config_path environment))
    × (value_of (default_control_socket_path environment)
        ≡ value_of (control_socket_path environment))
locations-same_example = locations-same environment

request_id_lem_example :
    ((request_id 4321 0 ≡ request_id 4321 1) ↔ (◌≡◌ {A = ℕ} 0 1))
    × IsWord (request_id 4321 0)
    × IsText (request_id 4321 0)
    × Lacks newline (request_id 4321 0)
    × Lacks 9 (request_id 4321 0)
    × (length (request_id 4321 0) ≤ 25)
request_id_lem_example = request_id_lem 4321 0 1 (omega arith) (omega arith) (omega arith)

abbrev quiet : Round
quiet = record { receipt = empty; dialog_exited = false; late = false; client_gone = false }

abbrev answered : Round
answered = record {
  receipt = message (codes "123456");
  dialog_exited = true;
  late = true;
  client_gone = false;
}

wait_pin-message_example :
    (dialog : Bool) × (wait_pin (quiet ∷ answered ∷ []) true ≡ some (ok (codes "123456"), dialog))
wait_pin-message_example =
    wait_pin-message (quiet ∷ []) answered [] true (codes "123456") (unfold waits in refl, tt) refl

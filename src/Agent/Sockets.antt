-- ===== src/Agent/Sockets.antt =====
-- `bind_socket`, `bind_guarded_socket`, `activated_or_bound_listener` and `SocketGuard`.
use Prim.Native.Nat.{bit_and}
use keyvisor.Files.Paths.{FilePath, lookup, insert, remove, path_eq}
use keyvisor.Prelude.{
  ℕ, suc, Bool, true, false, not, ◌&&◌, ◌||◌, Option, none, some, List, [], ◌∷◌, ltb, ◌==◌,
  if◌then◌else◌, Result, ok, err, ◌>>◌, fail_if, then_do,
}

-- What a path leads to: whether it is a socket, its permissions, owner and identity, and whether a
-- listener accepts connections on it.
pub record SocketNode : Type 0 where
  pub is_socket : Bool
  pub mode : ℕ
  pub owner : ℕ
  pub device : ℕ
  pub inode : ℕ
  pub live : Bool

-- `faults` says of each call in turn whether it fails; where it ends, calls succeed. A new node has
-- the next number that no node has had.
pub record Sockets : Type 0 where
  pub nodes : List (FilePath × SocketNode)
  pub next_inode : ℕ
  pub faults : List Bool

pub data SocketError : Type 0 where
  address_in_use not_found failed : SocketError
  not_a_socket already_running : SocketError
  no_parent directory_not_private : SocketError
  ambiguous_activation address_mismatch activated_not_private : SocketError

abbrev pub Step : Type 0 → Type 0
Step A = Sockets → Result SocketError A × Sockets

unfoldable pub at : FilePath → Sockets → Option SocketNode
at path s = lookup path s.nodes

abbrev pub first_fault : List Bool → Bool
first_fault [] = false
first_fault (f ∷ rest) = f

abbrev pub later_faults : List Bool → List Bool
later_faults [] = []
later_faults (f ∷ rest) = rest

unfoldable pub call : {A : Type 0} → Step A → Step A
call k s =
    let s' : Sockets = record s { faults = later_faults s.faults } in
    elim (first_fault s.faults) [ true ↦ (err failed, s') | false ↦ k s' ]

unfoldable pub look : FilePath → Step SocketNode
unfolding at
look path s = (elim (at path s) [ some node ↦ ok node | none ↦ err not_found ], s)

unfoldable pub unlink : FilePath → Step (Unit {0})
unfolding at
unlink path s = elim (at path s) [
  | some node ↦ (ok tt, record s { nodes = remove path s.nodes })
  | none ↦ (err not_found, s)
]

unfoldable pub change_mode : ℕ → FilePath → Step (Unit {0})
unfolding at
change_mode mode path s = elim (at path s) [
  | some node ↦ (ok tt, record s { nodes = insert path (record node { mode = mode }) s.nodes })
  | none ↦ (err not_found, s)
]

unfoldable pub answers : FilePath → Step Bool
unfolding at
answers path s = (ok (elim (at path s) [ some node ↦ node.live | none ↦ false ]), s)

unfoldable pub metadata : FilePath → Step SocketNode
unfolding call look
metadata path s = call (look path) s

unfoldable pub remove_file : FilePath → Step (Unit {0})
unfolding call unlink
remove_file path s = call (unlink path) s

-- `UnixStream::connect(path).is_ok()`
unfoldable pub connects : FilePath → Sockets → Bool × Sockets
unfolding call answers
connects path s = let (r, s') = call (answers path) s in (elim r [ ok b ↦ b | err e ↦ false ], s')

unfoldable pub finish_socket_bind : FilePath → Step (Unit {0})
unfolding call change_mode
finish_socket_bind path s = call (change_mode 0o600 path) s

-- The fields of `SocketGuard`.
abbrev pub Guard : Type 0
Guard = FilePath × ℕ × ℕ

-- `Drop` of the guard.
unfoldable pub release : Guard → Sockets → Sockets
unfolding metadata remove_file
release (path, device, inode) s =
    let (found, s₁) = metadata path s in
    elim found [
      | err e ↦ s₁
      | ok node ↦
          if node.device == device && node.inode == inode then (remove_file path s₁).1 else s₁
    ]

-- `error.kind() == io::ErrorKind::AddrInUse`
unfoldable pub is_in_use : SocketError → Bool
is_in_use address_in_use = true
is_in_use _ = false

-- The user of the process, and the permissions that a new socket gets by the umask.
module _ (user umask_mode : ℕ) where
  unfoldable pub create : FilePath → Step (Unit {0})
  unfolding at
  create path s = elim (at path s) [
    | some node ↦ (err address_in_use, s)
    | none ↦ (
      ok tt,
      record s {
        nodes =
            insert path
              (record {
                is_socket = true;
                mode = umask_mode;
                owner = user;
                device = 0;
                inode = s.next_inode;
                live = true;
              })
              s.nodes;
        next_inode = suc s.next_inode;
      },
    )
  ]

  unfoldable pub bind : FilePath → Step (Unit {0})
  unfolding call create
  bind path s = call (create path) s

  -- The path is in use: a socket on which nobody listens is replaced.
  unfoldable pub replace_stale : FilePath → Step (Unit {0})
  unfolding metadata connects remove_file bind finish_socket_bind
  replace_stale path s = then_do (metadata path s) λ node s₁.
      then_do (fail_if (not node.is_socket) not_a_socket, s₁)
        λ _ s₂.
          let (running, s₃) = connects path s₂ in
          then_do (fail_if running already_running, s₃)
            λ _ s₄.
              then_do (remove_file path s₄)
                λ _ s₅. then_do (bind path s₅) (λ _ s₆. finish_socket_bind path s₆)

  unfoldable pub bound :
      FilePath → Result SocketError (Unit {0}) × Sockets → Result SocketError (Unit {0}) × Sockets
  unfolding replace_stale finish_socket_bind is_in_use
  bound path (ok u, s) = finish_socket_bind path s
  bound path (err e, s) = elim (is_in_use e) [ true ↦ replace_stale path s | false ↦ (err e, s) ]

  unfoldable pub bind_socket : FilePath → Step (Unit {0})
  unfolding bind bound
  bind_socket path s = bound path (bind path s)

  unfoldable pub guarded : FilePath → Step Guard
  unfolding bind_socket metadata
  guarded path s =
      then_do (bind_socket path s)
        λ _ s₁. then_do (metadata path s₁) λ node s₂. (ok (path, node.device, node.inode), s₂)

  -- After the preparation of the socket's directory.
  unfoldable pub bind_guarded_socket : Result SocketError (Unit {0}) → FilePath → Step Guard
  unfolding guarded
  bind_guarded_socket prepared path s = then_do (prepared, s) (λ _ s'. guarded path s')

  -- The checks of a socket that systemd passed, by its address.
  unfoldable pub check_activated : Option FilePath → FilePath → Step (Option Guard)
  unfolding metadata
  check_activated address path s =
      then_do
        (
          fail_if (not (elim address [ none ↦ false | some p ↦ path_eq p path ])) address_mismatch,
          s,
        )
        λ _ s₁. then_do (metadata path s₁) λ node s₂. (
          do
            fail_if
                (not node.is_socket
                  || not (bit_and node.mode 0o777 == 0o600)
                  || not (node.owner == user))
                activated_not_private
            ok none,
          s₂,
        )

  -- How many sockets systemd passed, and the first of them: `take_unix_listener(0)` may fail, and so
  -- may `local_addr` of the socket that it returns.
  unfoldable pub activated_or_bound_listener :
      ℕ
      → Result SocketError (Option (Result SocketError (Option FilePath)))
      → FilePath
      → Step (Option Guard)
  unfolding guarded check_activated
  activated_or_bound_listener inherited taken path s =
      then_do (fail_if (ltb 1 inherited) ambiguous_activation, s)
        λ _ s₁.
          then_do (taken, s₁)
            λ listener s₂. elim listener [
              | none ↦ then_do (guarded path s₂) (λ guard s₃. (ok (some guard), s₃))
              | some local_addr ↦
                  then_do (local_addr, s₂) (λ address s₃. check_activated address path s₃)
            ]

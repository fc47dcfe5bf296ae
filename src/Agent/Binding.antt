-- ===== src/Agent/Binding.antt =====
-- Which sockets binding replaces, and which a guard removes.
use keyvisor.Agent.Sockets.{
  not_found, not_a_socket, already_running, address_in_use, failed, connects, remove_file,
  is_in_use,
}
use keyvisor.Files.Paths.{FilePath, lookup, insert, lookup-insert, path_eq_iff}
use keyvisor.Agent.Sockets.{
  call, at, Sockets, SocketError, SocketNode, metadata, replace_stale, bind, Step, not_found, look,
  not_a_socket, create, failed, later_faults, address_in_use, first_fault, bound, bind_socket,
  finish_socket_bind, change_mode,
}
use keyvisor.Prelude.{
  ℕ, ◌≡◌, refl, sym, ap, ◌∙◌, ◌≢◌, ◌⊎◌, inl, inr, Bool, true, false, not, Option, none, some, List,
  Bool-cases, Option-cases, Result, ok, err, fail_if, ok-injective, not-eq-false, fail_if-eq-ok,
  some-injective, then_do, then_do-post,
}

module _ {A : Type 0} where
  pub call-post :
      (P : Result SocketError A × Sockets → Type 0) (k : Step A) (s : Sockets)
      → ((s' : Sockets) → s'.nodes ≡ s.nodes → P (err failed, s'))
      → ((s' : Sockets) → s'.nodes ≡ s.nodes → P (k s'))
      → P (call k s)
  unfolding call
  call-post P k s stopped done = split (first_fault s.faults)
    where
      split :
          (b : Bool)
          → P (elim b [
            | true ↦ (err failed, record s { faults = later_faults s.faults })
            | false ↦ k (record s { faults = later_faults s.faults })
          ])
      split true = stopped (record s { faults = later_faults s.faults }) refl
      split false = done (record s { faults = later_faults s.faults }) refl

pub at-same : (path : FilePath) (s s' : Sockets) → s'.nodes ≡ s.nodes → at path s' ≡ at path s
unfolding at
at-same path s s' h = ap (lookup path) h

insert-here :
    (path : FilePath) (node : SocketNode) (nodes : List (FilePath × SocketNode))
    → lookup path (insert path node nodes) ≡ some node
insert-here path node nodes =
    lookup-insert path path node nodes ∙ rw ((path_eq_iff path path).1 refl) refl

-- A step that fails and changes no node.
abbrev pub IsRefused : Sockets → Result SocketError (Unit {0}) × Sockets → Type 0
IsRefused s r = (r.1.nodes ≡ s.nodes) × (r.0 ≢ ok tt)

module _ (path : FilePath) where
  -- `metadata` leaves the nodes, and answers with the node at the path.
  abbrev pub IsSeen : Sockets → Result SocketError SocketNode × Sockets → Type 0
  IsSeen s r = (r.1.nodes ≡ s.nodes) × ((node : SocketNode) → r.0 ≡ ok node → at path s ≡ some node)

  found-node :
      (o : Option SocketNode) (node : SocketNode)
      → ◌≡◌ {A = Result SocketError SocketNode}
          (elim o [ some n ↦ ok n | none ↦ err not_found ])
          (ok node)
      → o ≡ some node
  found-node none node e = cc
  found-node (some n) node e = ap some (ok-injective e)

  pub metadata-IsSeen : (s : Sockets) → IsSeen s (metadata path s)
  unfolding metadata look
  metadata-IsSeen s =
      call-post (IsSeen s) (look path) s (λ s' same. (same, λ node e. cc))
        (λ s' same. (same, λ node e. sym (at-same path s s' same) ∙ found-node (at path s') node e))

module _ (user umask_mode : ℕ) (path : FilePath) where
  occupied-IsRefused :
      (s : Sockets) (node : SocketNode)
      → at path s ≡ some node
      → node.is_socket ≡ false
      → IsRefused s (replace_stale user umask_mode path s)
  unfolding replace_stale
  occupied-IsRefused s node here special =
      let (same, seen) = metadata-IsSeen path s in
      then_do-post (IsRefused s) (metadata path s) _ (λ e f. (same, λ h. cc))
        λ found f.
          let is_node : found ≡ node = some-injective (sym (seen found f) ∙ here) in
          then_do-post (IsRefused s) (fail_if (not found.is_socket) not_a_socket, _) _
            (λ e f'. (same, λ h. cc))
            λ u passed.
              let yes_socket : found.is_socket ≡ true =
                not-eq-false (fail_if-eq-ok (not found.is_socket) not_a_socket passed) in
              absurd (cc)

  bind-refused :
      (s : Sockets) (node : SocketNode)
      → at path s ≡ some node
      → ((bind user umask_mode path s).1.nodes ≡ s.nodes)
        × (((bind user umask_mode path s).0 ≡ err failed)
            ⊎ ((bind user umask_mode path s).0 ≡ err address_in_use))
  unfolding bind create
  bind-refused s node here =
      call-post (λ r. (r.1.nodes ≡ s.nodes) × ((r.0 ≡ err failed) ⊎ (r.0 ≡ err address_in_use)))
        (create user umask_mode path) s (λ s' same. (same, inl refl))
        λ s' same. rw (create, at-same path s s' same ∙ here) (same, inr refl)

  bound-IsRefused :
      (s : Sockets) (node : SocketNode) (r : Result SocketError (Unit {0}) × Sockets)
      → at path s ≡ some node
      → node.is_socket ≡ false
      → r.1.nodes ≡ s.nodes
      → (r.0 ≡ err failed) ⊎ (r.0 ≡ err address_in_use)
      → IsRefused s (bound user umask_mode path r)
  unfolding bound
  bound-IsRefused s node (ok u, s') here special same (inl e) = cc
  bound-IsRefused s node (ok u, s') here special same (inr e) = cc
  bound-IsRefused s node (err e, s') here special same kinds = elim (Bool-cases (is_in_use e)) [
    | inl used ↦
        let (kept, h) = occupied-IsRefused s' node (at-same path s s' same ∙ here) special in
        rw (bound, used) (kept ∙ same, h)
    | inr unused ↦ rw (bound, unused) (same, λ h. cc)
  ]

  bind_socket-IsRefused :
      (s : Sockets) (node : SocketNode)
      → at path s ≡ some node
      → node.is_socket ≡ false
      → IsRefused s (bind_socket user umask_mode path s)
  unfolding bind_socket
  bind_socket-IsRefused s node here special =
      let (same, kinds) = bind-refused s node here in
      bound-IsRefused s node (bind user umask_mode path s) here special same kinds

-- A socket of the user that only the user can connect to, on which somebody listens.
abbrev pub IsOwnSocket : ℕ → SocketNode → Type 0
IsOwnSocket user node =
    (node.is_socket ≡ true) × (node.mode ≡ 0o600) × (node.owner ≡ user) × (node.live ≡ true)

module _ (user umask_mode : ℕ) (path : FilePath) where
  -- A successful step leaves such a socket at the path.
  abbrev pub Leaves : Result SocketError (Unit {0}) × Sockets → Type 0
  Leaves r = r.0 ≡ ok tt → (node : SocketNode) × (at path r.1 ≡ some node) × IsOwnSocket user node

  -- After `bind` the mode is not yet set.
  abbrev IsFresh : Sockets → Type 0
  IsFresh s =
      (node : SocketNode) × (at path s ≡ some node)
      × (node.is_socket ≡ true)
      × (node.owner ≡ user)
      × (node.live ≡ true)

  finish-Leaves : (s : Sockets) → IsFresh s → Leaves (finish_socket_bind path s)
  unfolding finish_socket_bind change_mode
  finish-Leaves s (node, here, sock, own, live) =
      call-post Leaves (change_mode 0o600 path) s (λ s' same h. cc)
        λ s' same.
          rw (change_mode, at-same path s s' same ∙ here)
            λ h. (
              record node { mode = 0o600 },
              insert-here path (record node { mode = 0o600 }) s'.nodes,
              (sock, refl, own, live),
            )

  bind-IsFresh :
      (s : Sockets)
      → (bind user umask_mode path s).0 ≡ ok tt
      → IsFresh (bind user umask_mode path s).1
  unfolding bind create
  bind-IsFresh s =
      call-post (λ r. r.0 ≡ ok tt → IsFresh r.1) (create user umask_mode path) s (λ s' same h. cc)
        λ s' same. elim (Option-cases (at path s')) [
          | inl e ↦
              rw (create, e) λ h. (fresh s', insert-here path (fresh s') s'.nodes, refl, refl, refl)
          | inr (node, e) ↦ rw (create, e) (λ h. cc)
        ]
    where
      fresh : Sockets → SocketNode
      fresh s' = record {
        is_socket = true;
        mode = umask_mode;
        owner = user;
        device = 0;
        inode = s'.next_inode;
        live = true;
      }

  replace_stale-Leaves : (s : Sockets) → Leaves (replace_stale user umask_mode path s)
  unfolding replace_stale
  replace_stale-Leaves s =
      then_do-post Leaves (metadata path s) _ (λ e f h. cc)
        λ found f.
          then_do-post Leaves (fail_if (not found.is_socket) not_a_socket, _) _ (λ e f' h. cc)
            λ u f₁.
              then_do-post Leaves (fail_if (connects path (metadata path s).1).0 already_running, _)
                _ (λ e f' h. cc)
                λ v f₂.
                  then_do-post Leaves (remove_file path (connects path (metadata path s).1).1) _
                    (λ e f' h. cc)
                    λ w f₃. bind_again (remove_file path (connects path (metadata path s).1).1).1
    where
      bind_again :
          (s' : Sockets)
          → Leaves (then_do (bind user umask_mode path s') (λ _ s₆. finish_socket_bind path s₆))
      bind_again s' =
          then_do-post Leaves (bind user umask_mode path s') _ (λ e f h. cc)
            λ u f. finish-Leaves (bind user umask_mode path s').1 (bind-IsFresh s' f)

  bind_socket-Leaves : (s : Sockets) → Leaves (bind_socket user umask_mode path s)
  unfolding bind_socket
  bind_socket-Leaves s = of_bind (bind user umask_mode path s) (bind-IsFresh s)
    where
      of_bind :
          (r : Result SocketError (Unit {0}) × Sockets)
          → (r.0 ≡ ok tt → IsFresh r.1)
          → Leaves (bound user umask_mode path r)
      of_bind (ok u, s') fresh = finish-Leaves s' (fresh refl)
      of_bind (err e, s') fresh = elim (Bool-cases (is_in_use e)) [
        | inl used ↦ rw (bound, used) (replace_stale-Leaves s')
        | inr unused ↦ rw (bound, unused) (λ h. cc)
      ]

  -- A binding that succeeds leaves at the path a socket of the user with the mode 0600 on which the
  -- agent listens, and the path led to nothing before, or to a socket.
  pub bind_socket-IsOwnSocket :
      (s : Sockets)
      → (bind_socket user umask_mode path s).0 ≡ ok tt
      → ((node : SocketNode) × (at path (bind_socket user umask_mode path s).1 ≡ some node)
          × IsOwnSocket user node)
        × ((at path s ≡ none)
            ⊎ ((node : SocketNode) × (at path s ≡ some node) × (node.is_socket ≡ true)))
  bind_socket-IsOwnSocket s h = (
    bind_socket-Leaves s h,
    elim (Option-cases (at path s)) [
      | inl nothing ↦ inl nothing
      | inr (node, here) ↦ elim (Bool-cases node.is_socket) [
        | inl yes_socket ↦ inr (node, here, yes_socket)
        | inr special ↦
            absurd ((bind_socket-IsRefused user umask_mode path s node here special).1 h)
      ]
    ],
  )

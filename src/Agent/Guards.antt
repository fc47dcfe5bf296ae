-- ===== src/Agent/Guards.antt =====
-- What a guard removes, and which passed socket is served.
use Prim.Native.Nat.{bit_and}
use keyvisor.Agent.Binding.{call-post, metadata-IsSeen, at-same}
use keyvisor.Agent.Sockets.{
  Guard, activated_or_bound_listener, SocketNode, remove_file, release, Sockets, unlink, metadata,
  at, SocketError, ambiguous_activation, address_mismatch, activated_not_private, check_activated,
}
use keyvisor.Files.Paths.{FilePath, lookup, remove, path_eq, path_eq_iff, lookup-remove}
use keyvisor.Prelude.{
  ℕ, ◌≤◌, ◌≡◌, refl, sym, ap, ◌∙◌, subst, ◌≢◌, inl, inr, Bool, true, false, not, ◌&&◌, ◌||◌, Option,
  none, some, List, arith, ltb, ◌==◌, if◌then◌else◌, ==_iff, Bool-cases, Option-cases, Result, ok,
  err, fail_if, bind-eq-ok, not-eq-false, fail_if-eq-ok, some-injective, then_do, then_do-ok,
}

lookup-remove_other :
    (q path : FilePath) (nodes : List (FilePath × SocketNode))
    → q ≢ path
    → lookup q (remove path nodes) ≡ lookup q nodes
lookup-remove_other q path nodes ne = elim (Bool-cases (path_eq path q)) [
  | inl same ↦ absurd (ne (sym ((path_eq_iff path q).0 same)))
  | inr other ↦ lookup-remove path q nodes ∙ rw other refl
]

remove_file-others :
    (q path : FilePath) (s : Sockets) → q ≢ path → at q (remove_file path s).1 ≡ at q s
unfolding remove_file unlink
remove_file-others q path s ne =
    call-post (λ r. at q r.1 ≡ at q s) (unlink path) s (λ s' same. at-same q s s' same)
      λ s' same. elim (Option-cases (at path s')) [
        | inl e ↦ rw (unlink, e) (at-same q s s' same)
        | inr (node, e) ↦
            rw (unlink, e)
              (unfold at in lookup-remove_other q path s'.nodes ne ∙ at-same q s s' same)
      ]

-- Another node than the guard's.
abbrev pub IsReplaced : Guard → SocketNode → Type 0
IsReplaced (path, device, inode) node = (node.device == device && node.inode == inode) ≡ false

module _ (path : FilePath) (device inode : ℕ) where
  -- What is left after the metadata was read.
  release-cases :
      (P : Sockets → Type 0) (s : Sockets)
      → P (metadata path s).1
      → ((node : SocketNode)
          → (metadata path s).0 ≡ ok node
          → (node.device == device && node.inode == inode) ≡ true
          → P (remove_file path (metadata path s).1).1)
      → P (release (path, device, inode) s)
  unfolding release
  release-cases P s kept removed = split (metadata path s).0 removed
    where
      split :
          (found : Result SocketError SocketNode)
          → ((node : SocketNode)
              → found ≡ ok node
              → (node.device == device && node.inode == inode) ≡ true
              → P (remove_file path (metadata path s).1).1)
          → P (elim found [
            | err e ↦ (metadata path s).1
            | ok node ↦
                if node.device == device && node.inode == inode
                then (remove_file path (metadata path s).1).1
                else (metadata path s).1
          ])
      split (err e) h = kept
      split (ok node) h = elim (Bool-cases (node.device == device && node.inode == inode)) [
        | inl own ↦ rw own (h node refl own)
        | inr other ↦ rw other kept
      ]

  -- A guard that goes removes nothing but the node that it was made for: the nodes at other paths
  -- stay, and so do all nodes where another node is at its path.
  pub release-keeps :
      (s : Sockets)
      → ((q : FilePath) → q ≢ path → at q (release (path, device, inode) s) ≡ at q s)
        × ((node : SocketNode)
            → at path s ≡ some node
            → IsReplaced (path, device, inode) node
            → (release (path, device, inode) s).nodes ≡ s.nodes)
  release-keeps s =
      let (same, seen) = metadata-IsSeen path s in
      let s₁ = (metadata path s).1 in
      (
        λ q ne.
            release-cases (λ s'. at q s' ≡ at q s) s (at-same q s s₁ same)
              (λ node found own. remove_file-others q path s₁ ne ∙ at-same q s s₁ same),
        λ node here replaced.
            release-cases (λ s'. s'.nodes ≡ s.nodes) s same
              (λ found f own.
                let e : found ≡ node = some-injective (sym (seen found f) ∙ here) in
                let differs =
                  subst (λ n. (n.device == device && n.inode == inode) ≡ false) (sym e) replaced in
                absurd (cc)),
      )

-- A socket that systemd passed is served only if it is the only one, is bound to the agent's path,
-- and the path leads to a socket of the user with the mode 0600.
pub activated-IsPrivate :
    (user umask_mode inherited : ℕ) (local_addr : Result SocketError (Option FilePath))
    (path : FilePath) (s : Sockets) {guard : Option Guard}
    → (activated_or_bound_listener user umask_mode inherited (ok (some local_addr)) path s).0
      ≡ ok guard
    → (inherited ≤ 1)
      × (local_addr ≡ ok (some path))
      × ((node : SocketNode) × (at path s ≡ some node)
          × (node.is_socket ≡ true)
          × (bit_and node.mode 0o777 ≡ 0o600)
          × (node.owner ≡ user))
unfolding activated_or_bound_listener check_activated
activated-IsPrivate user umask_mode inherited local_addr path s {guard} h =
    let (u, few, f₁, h₁) = then_do-ok (fail_if (ltb 1 inherited) ambiguous_activation, s) _ h in
    let h₂ : (then_do (local_addr, s)
          (λ address s₃. check_activated user umask_mode address path s₃)).0
        ≡ ok guard =
      unfold then_do in h₁ in
    let (address, named, f₀, h₀) = then_do-ok (local_addr, s) _ h₂ in
    let matches : Bool = elim address [ none ↦ false | some p ↦ path_eq p path ] in
    let (v, matched, f₂, h₃) = then_do-ok (fail_if (not matches) address_mismatch, s) _ h₀ in
    let (node, found, f₃, h₄) = then_do-ok (metadata path s) _ h₃ in
    let (w, private, h₅) =
      bind-eq-ok
        (fail_if
          (not node.is_socket || not (bit_and node.mode 0o777 == 0o600) || not (node.owner == user))
          activated_not_private)
        _ h₄ in
    let (sock, mode, own) =
      parts node.is_socket _ _ (fail_if-eq-ok _ activated_not_private private) in
    (
      at_most (fail_if-eq-ok (ltb 1 inherited) ambiguous_activation few),
      named
          ∙ ap ok (
              address_is address
                (not-eq-false (fail_if-eq-ok (not matches) address_mismatch matched))),
      (node, (metadata-IsSeen path s).1 node found, sock, (==_iff _ _).0 mode, (==_iff _ _).0 own),
    )
  where
    parts :
        (a b c : Bool) → (not a || not b || not c) ≡ false → (a ≡ true) × (b ≡ true) × (c ≡ true)
    parts true true true h = (refl, refl, refl)
    parts true true false h = absurd (cc)
    parts true false c h = absurd (cc)
    parts false b c h = absurd (cc)

    at_most : ltb 1 inherited ≡ false → inherited ≤ 1
    at_most h = ground arith

    address_is :
        (a : Option FilePath)
        → (elim a [ none ↦ false | some p ↦ path_eq p path ]) ≡ true
        → a ≡ some path
    address_is none h = absurd (cc)
    address_is (some p) h = ap some ((path_eq_iff p path).0 h)

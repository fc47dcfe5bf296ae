-- ===== src/Files/Private.antt =====
-- `ensure_private_directory` of the key store and of the history, which are the same function.
use keyvisor.Prelude.{
  ℕ, ◌≡◌, refl, ◌∙◌, inl, inr, arith, Option-cases, Result, ok, err, then_do, then_do-post,
}
use keyvisor.Files.Paths.{FilePath, path_eq_iff}
use keyvisor.Files.Defs.{
  IoError, Files, Node, file, directory, special, Io, symlink_metadata, set_permissions,
  create_directory, invalid_input, not_found, unless_fault, node_at, tick, found, node_at-tick,
  node_at-put, with_mode,
}
use keyvisor.Files.Atomic.{SameBut, unless_fault-nodes}

-- What `ensure_private_directory` does once it has looked at the path.
unfoldable pub ensure_found : FilePath → Result IoError Node → Io IoError (Unit {0})
ensure_found path (ok (file mode bytes)) fs = (err invalid_input, fs)
ensure_found path (ok (special s)) fs = (err invalid_input, fs)
ensure_found path (ok (directory mode)) fs = set_permissions 0o700 path fs
ensure_found path (err not_found) fs =
    then_do {0, 0} (create_directory 0o700 path fs) (λ _ fs'. set_permissions 0o700 path fs')
ensure_found path (err e) fs = (err e, fs)

unfoldable pub ensure_private_directory : FilePath → Io IoError (Unit {0})
unfolding ensure_found
ensure_private_directory path fs =
    let (r, fs') = symlink_metadata path fs in ensure_found path r fs'

set_permissions-SameBut :
    (mode : ℕ) (p : FilePath) (fs : Files) → SameBut p fs (set_permissions mode p fs).1
unfolding set_permissions unless_fault
set_permissions-SameBut mode p fs q h = elim (Option-cases (node_at p (tick fs))) [
  | inl e ↦ ground (arith, node_at-tick q fs)
  | inr n ↦
      ground
        (arith, path_eq_iff p q, node_at-put p q (with_mode mode n.0) (tick fs), node_at-tick q fs)
]

create_directory-SameBut :
    (mode : ℕ) (p : FilePath) (fs : Files) → SameBut p fs (create_directory mode p fs).1
unfolding create_directory unless_fault
create_directory-SameBut mode p fs q h =
    ground (arith, path_eq_iff p q, node_at-put p q (directory mode) (tick fs), node_at-tick q fs)

ensure_found-SameBut :
    (p : FilePath) (r : Result IoError Node) (fs : Files) → SameBut p fs (ensure_found p r fs).1
unfolding ensure_found
ensure_found-SameBut p (ok (file mode bytes)) fs q h = refl
ensure_found-SameBut p (ok (special s)) fs q h = refl
ensure_found-SameBut p (ok (directory mode)) fs q h = set_permissions-SameBut 0o700 p fs q h
ensure_found-SameBut p (err not_found) fs q h =
    then_do-post (λ r. node_at q r.1 ≡ node_at q fs) (create_directory 0o700 p fs) _
      (λ e _. create_directory-SameBut 0o700 p fs q h)
      (λ u _. set_permissions-SameBut 0o700 p _ q h ∙ create_directory-SameBut 0o700 p fs q h)
ensure_found-SameBut p (err e) fs q h = refl

pub ensure_private_directory-SameBut :
    (p : FilePath) (fs : Files) → SameBut p fs (ensure_private_directory p fs).1
unfolding ensure_private_directory symlink_metadata
ensure_private_directory-SameBut p fs q h =
    ensure_found-SameBut p _ _ q h ∙ unless_fault-nodes q fs (λ fs'. found ok (node_at p fs'))

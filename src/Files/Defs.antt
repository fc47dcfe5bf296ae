-- ===== src/Files/Defs.antt =====
-- The state of the file system and its operations.
use keyvisor.Prelude.{
  ℕ, ◌≡◌, refl, Option, none, some, List, [], ◌∷◌, ◌++◌, if◌then◌else◌, take, Result, ok, err,
  then_do,
}
use keyvisor.Wire.Endian.{Bytes}
use keyvisor.Files.Paths.{FilePath, lookup, insert, remove, path_eq, lookup-insert, lookup-remove}

-- The kinds of `io::Error` that the program tells apart, and the others by a number.
pub data IoError : Type 0 where
  not_found already_exists invalid_input permission_denied : IoError
  other : ℕ → IoError

-- A file and a directory with their permission bits; anything else, such as a symbolic link, with
-- the bytes that a read through it returns, if it can be read.
pub data Node : Type 0 where
  file : ℕ → Bytes → Node
  directory : ℕ → Node
  special : Option Bytes → Node

-- A failure of an operation, and how many bytes a failed write has written.
pub record Fault : Type 0 where
  pub error : IoError
  pub written : ℕ

-- `faults` says of each operation in turn whether it fails; where it ends, operations succeed.
pub record Files : Type 0 where
  pub nodes : List (FilePath × Node)
  pub faults : List (Option Fault)

unfoldable pub node_at : FilePath → Files → Option Node
node_at p fs = lookup p fs.nodes

unfoldable pub next_fault : Files → Option Fault
next_fault fs = elim fs.faults [ [] ↦ none | f ∷ rest ↦ f ]

later : List (Option Fault) → List (Option Fault)
later [] = []
later (f ∷ rest) = rest

-- The state after an operation that changes no node.
unfoldable pub tick : Files → Files
unfolding later
tick fs = record fs { faults = later fs.faults }

unfoldable pub put : FilePath → Node → Files → Files
put p n fs = record fs { nodes = insert p n fs.nodes }

unfoldable pub delete : FilePath → Files → Files
delete p fs = record fs { nodes = remove p fs.nodes }

-- The same nodes, and no failures to come.
unfoldable pub calm : Files → Files
calm fs = record fs { faults = [] }

-- An operation returns its result beside the new state.
abbrev pub Io {ℓ} : Type 0 → Type ℓ → Type ℓ
Io E A = Files → Result E A × Files

-- A failure, or the rest of the operation.
unfoldable pub unless_fault {ℓ} :
    {A : Type ℓ} → Files → (Files → Result IoError A × Files) → Result IoError A × Files
unless_fault fs k = elim (next_fault fs) [ none ↦ k (tick fs) | some f ↦ (err f.error, tick fs) ]

unfoldable pub found {ℓ} : {A : Type ℓ} → (Node → Result IoError A) → Option Node → Result IoError A
found k none = err not_found
found k (some n) = k n

-- `fs::symlink_metadata`
unfoldable pub symlink_metadata : FilePath → Io IoError Node
unfolding found
symlink_metadata p fs = unless_fault fs (λ fs'. (found ok (node_at p fs'), fs'))

unfoldable pub contents : Node → Result IoError Bytes
contents (file mode bytes) = ok bytes
contents (directory mode) = err (other 21)
contents (special none) = err (other 5)
contents (special (some bytes)) = ok bytes

-- `fs::read`
unfoldable pub read : FilePath → Io IoError Bytes
unfolding found contents
read p fs = unless_fault fs (λ fs'. (found contents (node_at p fs'), fs'))

-- `OpenOptions::new().create_new(true).write(true).mode(mode).open(path)`
unfoldable pub create_new : ℕ → FilePath → Io IoError (Unit {0})
create_new mode p fs = unless_fault fs (λ fs'. elim (node_at p fs') [
  | none ↦ (ok tt, put p (file mode []) fs')
  | some n ↦ (err already_exists, fs')
])

unfoldable pub grown : Bytes → Node → Node
grown more (file mode old) = file mode (old ++ more)
grown more (directory mode) = directory mode
grown more (special s) = special s

-- The state after `bytes` have been written at the end of a file.
unfoldable pub append_to : FilePath → Bytes → Files → Files
unfolding grown
append_to p bytes fs = elim (node_at p fs) [ none ↦ fs | some n ↦ put p (grown bytes n) fs ]

-- `file.write_all(bytes)` to a file that is open under the path.
unfoldable pub write_all : FilePath → Bytes → Io IoError (Unit {0})
write_all p bytes fs = elim (next_fault fs) [
  | none ↦ (ok tt, append_to p bytes (tick fs))
  | some f ↦ (err f.error, append_to p (take f.written bytes) (tick fs))
]

-- `sync_all` of a file or a directory; what it makes durable is not in the model.
unfoldable pub sync_all : Io IoError (Unit {0})
sync_all fs = unless_fault fs (λ fs'. (ok tt, fs'))

-- `fs::File::open(directory)?.sync_all()`
unfoldable pub sync_directory : FilePath → Io IoError (Unit {0})
unfolding found
sync_directory p fs =
    then_do {0, 0} (unless_fault fs (λ fs'. (found (λ n. ok (tt {0})) (node_at p fs'), fs')))
      (λ _ fs'. sync_all fs')

-- `fs::rename`, over a file that may exist.
unfoldable pub rename : FilePath → FilePath → Io IoError (Unit {0})
rename from to fs = unless_fault fs (λ fs'. elim (node_at from fs') [
  | none ↦ (err not_found, fs')
  | some n ↦ (ok tt, put to n (delete from fs'))
])

-- `fs::remove_file`
unfoldable pub remove_file : FilePath → Io IoError (Unit {0})
remove_file p fs =
    unless_fault fs
      (λ fs'. elim (node_at p fs') [ none ↦ (err not_found, fs') | some n ↦ (ok tt, delete p fs') ])

-- `DirBuilder` with `recursive(true)`; the parents are not in the model.
unfoldable pub create_directory : ℕ → FilePath → Io IoError (Unit {0})
create_directory mode p fs = unless_fault fs (λ fs'. (ok tt, put p (directory mode) fs'))

unfoldable pub with_mode : ℕ → Node → Node
with_mode mode (file old bytes) = file mode bytes
with_mode mode (directory old) = directory mode
with_mode mode (special s) = special s

-- `fs::set_permissions`
unfoldable pub set_permissions : ℕ → FilePath → Io IoError (Unit {0})
set_permissions mode p fs = unless_fault fs (λ fs'. elim (node_at p fs') [
  | none ↦ (err not_found, fs')
  | some n ↦ (ok tt, put p (with_mode mode n) fs')
])

pub node_at-put :
    (p q : FilePath) (n : Node) (fs : Files)
    → node_at q (put p n fs) ≡ (if path_eq p q then some n else node_at q fs)
unfolding node_at put
node_at-put p q n fs = lookup-insert p q n fs.nodes

pub node_at-delete :
    (p q : FilePath) (fs : Files)
    → node_at q (delete p fs) ≡ (if path_eq p q then none else node_at q fs)
unfolding node_at delete
node_at-delete p q fs = lookup-remove p q fs.nodes

pub node_at-tick : (q : FilePath) (fs : Files) → node_at q (tick fs) ≡ node_at q fs
unfolding node_at tick
node_at-tick q fs = refl

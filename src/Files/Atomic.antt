-- ===== src/Files/Atomic.antt =====
-- The closure of each `save`: write and sync the temporary file, rename it over the destination,
-- sync the directory; on a failure the temporary file is removed.
use keyvisor.Prelude.{
  ℕ, ◌≡◌, refl, sym, ◌∙◌, ◌≢◌, ◌⊎◌, inl, inr, none, some, [], ◌++◌, arith, if◌then◌else◌,
  Option-cases, take, Result, ok, err, then_do, then_do-post,
}
use keyvisor.Wire.Endian.{Bytes}
use keyvisor.Files.Paths.{FilePath, path_eq_iff, path_eq}
use keyvisor.Files.Defs.{
  IoError, Files, Node, file, Io, node_at, write_all, sync_all, rename, sync_directory, remove_file,
  node_at-put, node_at-delete, node_at-tick, append_to, grown, next_fault, unless_fault, tick,
  found, delete, read, contents,
}

module _ (temporary destination parent : FilePath) (bytes : Bytes) where
  unfoldable pub commit : Io IoError (Unit {0})
  commit fs = then_do (write_all temporary bytes fs) λ _ fs₁.
      then_do (sync_all fs₁)
        λ _ fs₂. then_do (rename temporary destination fs₂) λ _ fs₃. sync_directory parent fs₃

-- `if result.is_err() { let _ = fs::remove_file(&temporary); }`
unfoldable pub clean_up :
    FilePath → Result IoError (Unit {0}) × Files → Result IoError (Unit {0}) × Files
clean_up temporary (ok u, fs) = (ok u, fs)
clean_up temporary (err e, fs) = (err e, (remove_file temporary fs).1)

unfoldable pub replace_file : FilePath → FilePath → FilePath → Bytes → Io IoError (Unit {0})
replace_file temporary destination parent bytes fs =
    clean_up temporary (commit temporary destination parent bytes fs)

-- Every node but that of one path is as before.
abbrev pub SameBut : FilePath → Files → Files → Type 0
SameBut p fs fs' = (q : FilePath) → q ≢ p → node_at q fs' ≡ node_at q fs

append_to-SameBut :
    (p : FilePath) (bytes : Bytes) (fs : Files) → SameBut p fs (append_to p bytes fs)
unfolding append_to
append_to-SameBut p bytes fs q h = elim (Option-cases (node_at p fs)) [
  | inl e ↦ rw (e, append_to)
  | inr found ↦
      rw (found.1, append_to)
        (ground (arith, path_eq_iff p q, node_at-put p q (grown bytes found.0) fs))
]

write_all-SameBut :
    (p : FilePath) (bytes : Bytes) (fs : Files) → SameBut p fs (write_all p bytes fs).1
unfolding write_all
write_all-SameBut p bytes fs q h = elim (Option-cases (next_fault fs)) [
  | inl e ↦ rw (e, write_all) (append_to-SameBut p bytes (tick fs) q h ∙ node_at-tick q fs)
  | inr f ↦
      rw (f.1, write_all)
        (append_to-SameBut p (take f.0.written bytes) (tick fs) q h ∙ node_at-tick q fs)
]

-- A write that succeeds has written everything.
write_all-ok :
    (p : FilePath) (mode : ℕ) (old bytes : Bytes) (fs : Files)
    → node_at p fs ≡ some (file mode old)
    → (write_all p bytes fs).0 ≡ ok tt
    → node_at p (write_all p bytes fs).1 ≡ some (file mode (old ++ bytes))
unfolding write_all append_to grown
write_all-ok p mode old bytes fs here done = ground (
  arith,
  path_eq_iff p p,
  node_at-put p p (file mode (old ++ bytes)) (tick fs),
  node_at-tick p fs,
)

pub unless_fault-nodes :
    {A : Type 0} (q : FilePath) (fs : Files) (r : Files → Result IoError A)
    → node_at q (unless_fault fs (λ fs'. (r fs', fs'))).1 ≡ node_at q fs
unfolding unless_fault
unless_fault-nodes q fs r = ground (arith, node_at-tick q fs)

sync_all-nodes : (q : FilePath) (fs : Files) → node_at q (sync_all fs).1 ≡ node_at q fs
unfolding sync_all
sync_all-nodes q fs = unless_fault-nodes q fs (λ fs'. ok tt)

pub sync_directory-nodes :
    (p q : FilePath) (fs : Files) → node_at q (sync_directory p fs).1 ≡ node_at q fs
unfolding sync_directory
sync_directory-nodes p q fs =
    then_do-post (λ r. node_at q r.1 ≡ node_at q fs) (unless_fault fs _) _
      (λ e _. unless_fault-nodes q fs (λ fs'. found (λ n. ok tt) (node_at p fs')))
      (λ a _.
        sync_all-nodes q _ ∙ unless_fault-nodes q fs (λ fs'. found (λ n. ok tt) (node_at p fs')))

-- A rename that succeeds has moved the node; one that fails has changed none.
rename-ok :
    (from to q : FilePath) (n : Node) (fs : Files)
    → node_at from fs ≡ some n
    → (rename from to fs).0 ≡ ok tt
    → node_at q (rename from to fs).1
      ≡ (if path_eq to q then some n else if path_eq from q then none else node_at q fs)
unfolding rename unless_fault
rename-ok from to q n fs here done = ground (
  arith,
  node_at-put to q n (delete from (tick fs)),
  node_at-delete from q (tick fs),
  node_at-tick q fs,
  node_at-tick from fs,
)

rename-err :
    (from to q : FilePath) (fs : Files) (e : IoError)
    → (rename from to fs).0 ≡ err e
    → node_at q (rename from to fs).1 ≡ node_at q fs
unfolding rename unless_fault
rename-err from to q fs e failed = ground (arith, node_at-tick q fs)

pub remove_file-SameBut : (p : FilePath) (fs : Files) → SameBut p fs (remove_file p fs).1
unfolding remove_file unless_fault
remove_file-SameBut p fs q h =
    ground (arith, path_eq_iff p q, node_at-delete p q (tick fs), node_at-tick q fs)

module _ (temporary destination parent : FilePath) (bytes : Bytes) (mode : ℕ)
    (ne : temporary ≢ destination) where
  -- The new file stands at the destination, and the temporary name is free.
  pub record IsCommitted (fs fs' : Files) : Type 0 where
    pub at_destination : node_at destination fs' ≡ some (file mode bytes)
    pub temporary_gone : node_at temporary fs' ≡ none
    pub others : (q : FilePath) → q ≢ temporary → q ≢ destination → node_at q fs' ≡ node_at q fs

  abbrev Outcome : Files → Result IoError (Unit {0}) × Files → Type 0
  Outcome fs r = IsCommitted fs r.1 ⊎ ((r.0 ≢ ok tt) × SameBut temporary fs r.1)

  committed :
      (fs fs' : Files)
      → node_at temporary fs' ≡ some (file mode bytes)
      → SameBut temporary fs fs'
      → (rename temporary destination fs').0 ≡ ok tt
      → IsCommitted fs (rename temporary destination fs').1
  committed fs fs' here same done = record {
    at_destination = ground (
      arith,
      rename-ok temporary destination destination _ fs' here,
      path_eq_iff destination destination,
    );
    temporary_gone = ground (
      arith,
      rename-ok temporary destination temporary _ fs' here,
      path_eq_iff temporary temporary,
      path_eq_iff destination temporary,
    );
    others = λ q h k. ground (
      arith,
      rename-ok temporary destination q _ fs' here,
      path_eq_iff destination q,
      path_eq_iff temporary q,
      same q,
    );
  }

  commit-Outcome :
      (fs : Files)
      → node_at temporary fs ≡ some (file mode [])
      → Outcome fs (commit temporary destination parent bytes fs)
  unfolding commit
  commit-Outcome fs here =
      then_do-post (Outcome fs) (write_all temporary bytes fs) _
        (λ e _. inr (err-ne-ok e, write_all-SameBut temporary bytes fs))
        λ _ wrote.
          let fs₁ = (write_all temporary bytes fs).1 in
          let full = write_all-ok temporary mode [] bytes fs here wrote in
          let same = write_all-SameBut temporary bytes fs in
          let same₂ = λ (q : FilePath) (h : q ≢ temporary). sync_all-nodes q fs₁ ∙ same q h in
          then_do-post (Outcome fs) (sync_all fs₁) _ (λ e _. inr (err-ne-ok e, same₂))
            λ _ _.
              let fs₂ = (sync_all fs₁).1 in
              then_do-post (Outcome fs) (rename temporary destination fs₂) _
                (λ e failed.
                  inr (
                    err-ne-ok e,
                    λ q h. rename-err temporary destination q fs₂ e failed ∙ same₂ q h,
                  ))
                λ _ done.
                  inl (
                    synced fs _ (committed fs fs₂ (sync_all-nodes temporary fs₁ ∙ full) same₂ done))
    where
      err-ne-ok : (e : IoError) → ◌≢◌ {A = Result IoError (Unit {0})} (err e) (ok tt)
      err-ne-ok e h = cc

      synced : (fs fs' : Files) → IsCommitted fs fs' → IsCommitted fs (sync_directory parent fs').1
      synced fs fs' c = record {
        at_destination = sync_directory-nodes parent destination fs' ∙ c.at_destination;
        temporary_gone = sync_directory-nodes parent temporary fs' ∙ c.temporary_gone;
        others = λ q h k. sync_directory-nodes parent q fs' ∙ c.others q h k;
      }

  -- However the operations fail, the destination holds what it held or the whole new file, and no
  -- other node but the temporary one has changed; a success has committed.
  pub replace_file-atomic :
      (fs : Files)
      → node_at temporary fs ≡ some (file mode [])
      → let r = replace_file temporary destination parent bytes fs in
        (r.0 ≡ ok tt → IsCommitted fs r.1)
        × ((node_at destination r.1 ≡ node_at destination fs)
            ⊎ (node_at destination r.1 ≡ some (file mode bytes)))
        × ((q : FilePath) → q ≢ temporary → q ≢ destination → node_at q r.1 ≡ node_at q fs)
  unfolding replace_file clean_up
  replace_file-atomic fs here =
      cleaned (commit temporary destination parent bytes fs) (commit-Outcome fs here)
    where
      ne' : destination ≢ temporary
      ne' e = ne (sym e)

      cleaned :
          (r : Result IoError (Unit {0}) × Files)
          → Outcome fs r
          → ((clean_up temporary r).0 ≡ ok tt → IsCommitted fs (clean_up temporary r).1)
            × ((node_at destination (clean_up temporary r).1 ≡ node_at destination fs)
                ⊎ (node_at destination (clean_up temporary r).1 ≡ some (file mode bytes)))
            × ((q : FilePath)
                → q ≢ temporary
                → q ≢ destination
                → node_at q (clean_up temporary r).1 ≡ node_at q fs)
      cleaned (ok u, fs') (inl c) = (λ _. c, inr c.at_destination, c.others)
      cleaned (ok u, fs') (inr p) = absurd (p.0 refl)
      cleaned (err e, fs') (inl c) = (
        λ h. cc,
        inr (remove_file-SameBut temporary fs' destination ne' ∙ c.at_destination),
        λ q h k. remove_file-SameBut temporary fs' q h ∙ c.others q h k,
      )
      cleaned (err e, fs') (inr p) = (
        λ h. cc,
        inl (remove_file-SameBut temporary fs' destination ne' ∙ p.1 destination ne'),
        λ q h k. remove_file-SameBut temporary fs' q h ∙ p.1 q h,
      )

pub read-nodes : (p q : FilePath) (fs : Files) → node_at q (read p fs).1 ≡ node_at q fs
unfolding read
read-nodes p q fs = unless_fault-nodes q fs (λ fs'. found contents (node_at p fs'))

-- ===== src/Files/Save.antt =====
-- The temporary file of each `save`, and the whole write.
use keyvisor.Prelude.{
  ℕ, zero, suc, ◌+◌, ◌≡◌, refl, sym, ap, ◌∙◌, ◌≢◌, ◌⊎◌, inl, inr, true, false, Option, none, some,
  [], ◌∷◌, ◌++◌, arith, Bool-cases, Result, ok, err, then_do,
}
use keyvisor.Wire.Endian.{Bytes}
use keyvisor.Files.Paths.{FilePath, path_eq_iff, path_eq}
use keyvisor.Files.Defs.{
  IoError, Files, file, Io, node_at, create_new, already_exists, node_at-put, node_at-tick,
  unless_fault, tick, Node,
}
use keyvisor.Files.Atomic.{replace_file, SameBut, replace_file-atomic}

-- The arms of the match on the result of an attempt.
unfoldable pub retry :
    FilePath
    → Io IoError FilePath
    → Result IoError (Unit {0}) × Files
    → Result IoError FilePath × Files
retry p others (ok u, fs) = (ok p, fs)
retry p others (err already_exists, fs) = others fs
retry p others (err e, fs) = (err e, fs)

module _ (directory' : FilePath) (name : ℕ → Bytes) where
  abbrev pub temporary_path : ℕ → FilePath
  temporary_path attempt = directory' ++ name attempt ∷ []

  -- The loop `for attempt in 0..100_u8`: `rounds` attempts are left.
  unfoldable pub attempt_from : ℕ → ℕ → Io IoError FilePath
  attempt_from zero attempt fs = (err already_exists, fs)
  attempt_from (suc rounds) attempt fs =
      retry (temporary_path attempt) (attempt_from rounds (attempt + 1))
        (create_new 0o600 (temporary_path attempt) fs)

  unfoldable pub create_temporary_file : Io IoError FilePath
  unfolding attempt_from
  create_temporary_file fs = attempt_from 100 0 fs

  unfoldable pub save_bytes : FilePath → Bytes → Io IoError (Unit {0})
  unfolding create_temporary_file
  save_bytes destination bytes fs =
      then_do (create_temporary_file fs)
        λ temporary fs'. replace_file temporary destination directory' bytes fs'

create_new-ok :
    (mode : ℕ) (p : FilePath) (fs : Files)
    → (create_new mode p fs).0 ≡ ok tt
    → (node_at p fs ≡ none)
      × (node_at p (create_new mode p fs).1 ≡ some (file mode []))
      × SameBut p fs (create_new mode p fs).1
unfolding create_new unless_fault
create_new-ok mode p fs h = (
  ground (arith, node_at-tick p fs),
  ground (arith, node_at-put p p (file mode []) (tick fs), path_eq_iff p p, node_at-tick p fs),
  λ q k.
      ground (arith, node_at-put p q (file mode []) (tick fs), path_eq_iff p q, node_at-tick q fs),
)

create_new-err :
    (mode : ℕ) (p q : FilePath) (fs : Files) (e : IoError)
    → (create_new mode p fs).0 ≡ err e
    → node_at q (create_new mode p fs).1 ≡ node_at q fs
unfolding create_new unless_fault
create_new-err mode p q fs e h = ground (arith, node_at-tick q fs)

module _ (directory' : FilePath) (name : ℕ → Bytes) where
  -- What an allocated temporary file is: fresh, empty, private, and the only change.
  pub record IsFresh (p : FilePath) (fs fs' : Files) : Type 0 where
    pub attempt : ℕ
    pub named : p ≡ temporary_path directory' name attempt
    pub was_free : node_at p fs ≡ none
    pub empty : node_at p fs' ≡ some (file 0o600 [])
    pub others : SameBut p fs fs'

  abbrev Allocated : Files → Result IoError FilePath × Files → Type 0
  Allocated fs (ok p, fs') = IsFresh p fs fs'
  Allocated fs (err e, fs') = (q : FilePath) → node_at q fs' ≡ node_at q fs

  Allocated-same :
      (fs fs' : Files) (r : Result IoError FilePath × Files)
      → ((q : FilePath) → node_at q fs' ≡ node_at q fs)
      → Allocated fs' r
      → Allocated fs r
  Allocated-same fs fs' (ok p, fs'') same a = record {
    attempt = a.attempt;
    named = a.named;
    was_free = sym (same p) ∙ a.was_free;
    empty = a.empty;
    others = λ q h. a.others q h ∙ same q;
  }
  Allocated-same fs fs' (err e, fs'') same a = λ q. a q ∙ same q

  retry-Allocated :
      (k : ℕ) (fs : Files) (others : Io IoError FilePath) (r : Result IoError (Unit {0}) × Files)
      → create_new 0o600 (temporary_path directory' name k) fs ≡ r
      → ((fs' : Files) → Allocated fs' (others fs'))
      → Allocated fs (retry (temporary_path directory' name k) others r)
  unfolding retry
  retry-Allocated k fs others (ok u, fs') e step =
      let p = temporary_path directory' name k in
      let (free, empty, same) = create_new-ok 0o600 p fs (ap (λ r. r.0) e) in
      record {
        attempt = k;
        named = refl;
        was_free = free;
        empty = ap (λ r. node_at p r.1) (sym e) ∙ empty;
        others = λ q h. ap (λ r. node_at q r.1) (sym e) ∙ same q h;
      }
  retry-Allocated k fs others (err already_exists, fs') e step =
      let p = temporary_path directory' name k in
      Allocated-same fs fs' (others fs')
        (λ q.
          ap (λ r. node_at q r.1) (sym e)
          ∙ create_new-err 0o600 p q fs already_exists (ap (λ r. r.0) e))
        (step fs')
  retry-Allocated k fs others (err x, fs') e step = λ q.
      ap (λ r. node_at q r.1) (sym e)
      ∙ create_new-err 0o600 (temporary_path directory' name k) q fs _ (ap (λ r. r.0) e)

  attempt_from-Allocated :
      (rounds k : ℕ) (fs : Files) → Allocated fs (attempt_from directory' name rounds k fs)
  unfolding attempt_from
  attempt_from-Allocated zero k fs = λ q. refl
  attempt_from-Allocated (suc rounds) k fs =
      retry-Allocated k fs _ _ refl (attempt_from-Allocated rounds (k + 1))

  module _ (destination : FilePath) (bytes : Bytes)
      (apart : (k : ℕ) → temporary_path directory' name k ≢ destination) where
    -- What a write promises, whether it succeeds or not.
    pub record IsAtomic (fs : Files) (r : Result IoError (Unit {0}) × Files) : Type 0 where
      pub success :
          r.0 ≡ ok tt
          → (node_at destination r.1 ≡ some (file 0o600 bytes)) × SameBut destination fs r.1
      pub old_or_new :
          (node_at destination r.1 ≡ node_at destination fs)
          ⊎ (node_at destination r.1 ≡ some (file 0o600 bytes))
      pub others :
          (q : FilePath)
          → ((k : ℕ) → q ≢ temporary_path directory' name k)
          → q ≢ destination
          → node_at q r.1 ≡ node_at q fs

    replaced :
        (fs : Files) (r : Result IoError FilePath × Files)
        → Allocated fs r
        → IsAtomic fs
            (then_do r (λ temporary fs'. replace_file temporary destination directory' bytes fs'))
    unfolding then_do
    replaced fs (err e, fs') a = record {
      success = λ h. cc;
      old_or_new = inl (a destination);
      others = λ q _ _. a q;
    }
    replaced fs (ok p, fs') a =
        let ne : p ≢ destination = λ e. apart a.attempt (sym a.named ∙ e) in
        let ne' : destination ≢ p = λ e. ne (sym e) in
        let (done, kept, rest) =
          replace_file-atomic p destination directory' bytes 0o600 ne fs' a.empty in
        record {
          success = λ h.
              let c = done h in
              (
                c.at_destination,
                λ q k. elim (Bool-cases (path_eq q p)) [
                  | inl e ↦
                      let same = (path_eq_iff q p).0 e in
                      ap (λ x. node_at x (replace_file p destination directory' bytes fs').1) same
                      ∙ c.temporary_gone
                      ∙ sym (ap (λ x. node_at x fs) same ∙ a.was_free)
                  | inr e ↦
                      let q_ne : q ≢ p = λ x. true_ne (sym ((path_eq_iff q p).1 x) ∙ e) in
                      c.others q q_ne k ∙ a.others q q_ne
                ],
              );
          old_or_new = kept_old (a.others destination ne') kept;
          others = λ q k d.
              let q_ne : q ≢ p = λ x. k a.attempt (x ∙ a.named) in rest q q_ne d ∙ a.others q q_ne;
        }
      where
        true_ne : true ≢ false
        true_ne h = cc

        kept_old : {x y z w : Option Node} → x ≡ y → (z ≡ x) ⊎ (z ≡ w) → (z ≡ y) ⊎ (z ≡ w)
        kept_old e (inl f) = inl (f ∙ e)
        kept_old e (inr f) = inr f

    -- Where the destination has no temporary file's name: however the operations fail, it holds what
    -- it held or the whole new file with mode 0600, and only temporary names besides it can have
    -- changed. A success has the new file and leaves every other node as it was, no temporary file
    -- among them.
    pub save_bytes-IsAtomic :
        (fs : Files) → IsAtomic fs (save_bytes directory' name destination bytes fs)
    unfolding save_bytes create_temporary_file
    save_bytes-IsAtomic fs =
        replaced fs (create_temporary_file directory' name fs) (attempt_from-Allocated 100 0 fs)

-- ===== src/Cli/Removed.antt =====
-- What `key delete` removes.
use keyvisor.Cli.Confirmed.{IsConfirmed, require_confirmation-IsConfirmed}
use keyvisor.Store.Deleted.{delete_lem}
use keyvisor.Wire.Utf8.{from_utf8, from_utf8-eq-ok, codes}
use keyvisor.Cli.Arguments.{os_text, delete_options}
use keyvisor.Store.ListedNodes.{list-nodes}
use keyvisor.Cli.Defs.{key_not_found, store_failed, CliError, not_utf8}
use keyvisor.Cli.Control.{ok_or}
use keyvisor.Files.Defs.{node_at}
use keyvisor.Core.{as_str}
use keyvisor.Cli.Console.{require_confirmation, Console}
use keyvisor.Files.Paths.{FilePath}
use keyvisor.Store.Defs.{StoredKey}
use keyvisor.Wire.Endian.{Bytes}
use keyvisor.Cli.Create.{Setup, Shell}
use keyvisor.Prelude.{
  ◌≡◌, refl, ap, ◌∙◌, subst, ◌≢◌, ◌⊎◌, inl, inr, Bool, true, false, Option, none, some, List, [],
  ◌∷◌, arith, if◌then◌else◌, Bool-cases, bytes_eq, bytes_eq_sound, Result, ok, ok-injective,
  some-injective, if-cases, map_err-eq-ok, then_do-ok, then_do-post,
}
use keyvisor.Store.Ops.{delete, path_for}
use keyvisor.Store.Listing.{list}
use keyvisor.Cli.Commands.{delete_key, find_key, find_id, on_files, on_console}

found-some :
    (o : Option StoredKey) {key : StoredKey} → ok_or key_not_found o ≡ ok key → o ≡ some key
unfolding ok_or
found-some none h = cc
found-some (some k) h = ap some (ok-injective h)

find_id-some :
    (id : Bytes) (keys : List StoredKey) {key : StoredKey}
    → find_id id keys ≡ some key
    → as_str key.summary.id ≡ id
unfolding find_id
find_id-some id [] h = cc
find_id-some id (k ∷ keys) {key} h = elim (if-cases (bytes_eq (as_str k.summary.id) id) h) [
  | inl (same, found) ↦
      subst (λ x. as_str x.summary.id ≡ id) (some-injective found) (bytes_eq_sound _ _ same)
  | inr (differs, rest) ↦ find_id-some id keys rest
]

module _ (setup : Setup) where
  find_key-nodes :
      (id : Bytes) (shell : Shell) (q : FilePath)
      → node_at q (find_key setup id shell).1.files ≡ node_at q shell.files
  unfolding find_key on_files
  find_key-nodes id shell q =
      then_do-post (λ r. node_at q r.1.files ≡ node_at q shell.files) (setup.store, shell) _
        (λ e f. refl)
        λ store f.
          then_do-post (λ r. node_at q r.1.files ≡ node_at q shell.files)
            (on_files store_failed (list store) shell) _ (λ e f'. list-nodes store q shell.files)
            (λ keys f'. list-nodes store q shell.files)

  find_key-id :
      (id : Bytes) (shell : Shell) {key : StoredKey}
      → (find_key setup id shell).0 ≡ ok key
      → as_str key.summary.id ≡ id
  unfolding find_key
  find_key-id id shell h =
      let (store, e₁, f₁, h₁) = then_do-ok (setup.store, shell) _ h in
      let (keys, e₂, f₂, h₂) = then_do-ok (on_files store_failed (list store) shell) _ h₁ in
      find_id-some id keys (found-some (find_id id keys) h₂)

  -- The confirmation, if it was not given.
  abbrev confirmation : Bool → Shell → Result CliError (Unit {0}) × Shell
  confirmation confirmed shell =
      if confirmed then (ok tt, shell) else on_console require_confirmation shell

  confirmation-ok :
      (confirmed : Bool) (shell : Shell)
      → (confirmation confirmed shell).0 ≡ ok tt
      → (confirmed ≡ true) ⊎ ((require_confirmation shell.console).0 ≡ ok tt)
  unfolding on_console
  confirmation-ok true shell h = inl refl
  confirmation-ok false shell h = inr h

  confirmation-files :
      (confirmed : Bool) (shell : Shell) → (confirmation confirmed shell).1.files ≡ shell.files
  unfolding on_console
  confirmation-files true shell = refl
  confirmation-files false shell = refl

  find_key-console :
      (id : Bytes) (shell : Shell) → (find_key setup id shell).1.console ≡ shell.console
  unfolding find_key on_files
  find_key-console id shell =
      then_do-post (λ r. r.1.console ≡ shell.console) (setup.store, shell) _ (λ e f. refl)
        λ store f.
          then_do-post (λ r. r.1.console ≡ shell.console) (on_files store_failed (list store) shell)
            _ (λ e f'. refl) (λ keys f'. refl)

  delete_options-cases :
      (arguments : List Bytes) (console : Console) {id : Bytes} {confirmed : Bool}
      → delete_options arguments ≡ ok (id, confirmed)
      → (confirmed ≡ true) ⊎ ((require_confirmation console).0 ≡ ok tt)
      → (arguments ≡ id ∷ codes "--yes" ∷ []) ⊎ (arguments ≡ id ∷ []) × IsConfirmed console
  unfolding delete_options
  delete_options-cases [] console h asked = cc
  delete_options-cases (i ∷ []) console h asked =
      let e = ok-injective h in
      let same = ap (λ p. p.0) e in
      let unset = ap (λ p. p.1) e in
      elim asked [
        | inl set ↦ absurd (cc)
        | inr yes_typed ↦
            inr (ap (λ k. k ∷ []) same, require_confirmation-IsConfirmed console yes_typed)
      ]
  delete_options-cases (i ∷ flag ∷ []) console {id} h asked =
      elim (Bool-cases (bytes_eq flag (codes "--yes"))) [
        | inl given ↦
            let same = ap (λ p. p.0) (ok-injective (rw given at h)) in
            inl (rw (same, bytes_eq_sound flag (codes "--yes") given) refl)
        | inr other ↦ absurd (ground arith)
      ]
  delete_options-cases (i ∷ flag ∷ more ∷ rest) console h asked = cc

  -- A run of `key delete` that succeeds had an identifier and `--yes` as its arguments, or the
  -- identifier alone and a yes typed in the terminal; the record of the key with the given identifier is gone from the store, and every other
  -- file is as it was.
  pub delete_key-lem :
      (arguments : List Bytes) (shell : Shell)
      → (delete_key setup arguments shell).0 ≡ ok tt
      → (id : Bytes) × (store : FilePath) × ((arguments ≡ id ∷ codes "--yes" ∷ [])
          ⊎ (arguments ≡ id ∷ []) × IsConfirmed shell.console)
        × (setup.store ≡ ok store)
        × (node_at
              (path_for store (record { value = id }))
              (delete_key setup arguments shell).1.files
            ≡ none)
        × ((q : FilePath)
            → q ≢ path_for store (record { value = id })
            → node_at q (delete_key setup arguments shell).1.files ≡ node_at q shell.files)
  unfolding delete_key os_text on_files
  delete_key-lem arguments shell h =
      let ((id', confirmed), e₁, f₁, h₁) = then_do-ok (delete_options arguments, shell) _ h in
      let (id, e₂, f₂, h₂) = then_do-ok (from_utf8 not_utf8 id', shell) _ h₁ in
      let (key, e₃, f₃, h₃) = then_do-ok (find_key setup id shell) _ h₂ in
      let sh₃ = (find_key setup id shell).1 in
      let (u, e₄, f₄, h₄) = then_do-ok (confirmation confirmed sh₃) _ h₃ in
      let sh₄ = (confirmation confirmed sh₃).1 in
      let (store, e₅, f₅, h₅) = then_do-ok (setup.store, sh₄) _ h₄ in
      let (kept, erased) = delete_lem store key.summary.id sh₄.files in
      let (valid, was, gone) = erased (map_err-eq-ok store_failed _ h₅) in
      let final = f₁ ∙ f₂ ∙ f₃ ∙ f₄ ∙ f₅ in
      let same : key.summary.id ≡ record { value = id' } =
        ap (λ v. record { value = v })
          (find_key-id id shell e₃ ∙ (from_utf8-eq-ok not_utf8 id' e₂).1) in
      (
        id',
        store,
        delete_options-cases arguments shell.console e₁ (
            subst (λ c. (confirmed ≡ true) ⊎ ((require_confirmation c).0 ≡ ok tt))
              (find_key-console id shell) (confirmation-ok confirmed sh₃ e₄)),
        e₅,
        ap (λ r. node_at (path_for store (record { value = id' })) r.1.files) final
            ∙ subst
                (λ i. node_at (path_for store i) (delete store key.summary.id sh₄.files).1 ≡ none)
                same gone,
        λ q ne.
            ap (λ r. node_at q r.1.files) final
            ∙ kept q (λ e. ne (e ∙ ap (path_for store) same))
            ∙ ap (node_at q) (confirmation-files confirmed sh₃)
            ∙ find_key-nodes id shell q,
      )

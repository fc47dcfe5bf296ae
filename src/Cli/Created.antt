-- ===== src/Cli/Created.antt =====
-- What `create_key` has done where it succeeds.
use keyvisor.Cli.Complete.{IsComplete, check_options-IsComplete}
use keyvisor.Cli.Accepted.{IsWritten, create_options_iff}
use keyvisor.Cli.Confirmed.{IsConfirmed, require_confirmation-IsConfirmed}
use keyvisor.Cli.Arguments.{auto, terminal, pinentry, stdin, SecretInput}
use keyvisor.Files.Paths.{FilePath}
use keyvisor.Cli.Defs.{tpm_failed, store_failed, pin_options_without_pin}
use keyvisor.Tpm.Generate.{generate}
use keyvisor.Cli.Bounded.{read_pin-IsAccepted, IsAccepted}
use keyvisor.Cli.Secrets.{read_new_pin}
use keyvisor.Tpm.Defs.{TpmError, TpmAuthorization, no_authorization, pin, TpmObject}
use keyvisor.Wire.Endian.{Bytes}
use keyvisor.Cli.Console.{Console, require_confirmation}
use keyvisor.Tpm.Tss.{Tss}
use keyvisor.Cli.Create.{
  confirm_no_pin, new_authorization, Setup, make_key, Shell, generate_key, save_key, println,
  create_key, ask, check_options, is_auto,
}
use keyvisor.Prelude.{
  ℕ, ◌≡◌, refl, sym, ap, ◌∙◌, subst, ◌⊎◌, inl, inr, Bool, true, not, List, [], ◌∷◌, ◌++◌,
  if◌then◌else◌, Bool-cases, Result, ok, map_err, ok-injective, not-eq-false, fail_if-eq-ok,
  map_err-eq-ok, then_do-ok,
}
use keyvisor.Cli.Arguments.{CreateOptions, create_options, initial}
use keyvisor.Core.{no_pin, tpm_pin, KeyUsePolicy, KeyAlgorithm, KeySummary, as_str}
use keyvisor.Store.Ops.{save}

is_auto-auto : (input : SecretInput) → is_auto input ≡ true → input ≡ auto
is_auto-auto auto h = refl
is_auto-auto terminal h = cc
is_auto-auto pinentry h = cc
is_auto-auto stdin h = cc

-- A key without a PIN was confirmed, by the option or by a yes typed in the terminal, and no source
-- of a PIN was chosen; a key with a PIN has one within the bounds.
abbrev pub IsAllowed : CreateOptions → KeyUsePolicy → TpmAuthorization → Console → Type 0
IsAllowed options no_pin given console =
    (given ≡ no_authorization)
    × (options.secret_input ≡ auto)
    × ((options.confirmed ≡ true) ⊎ IsConfirmed console)
IsAllowed options tpm_pin given console =
    (secret : Bytes) × (given ≡ pin secret) × IsAccepted secret

confirm_no_pin-ok :
    (options : CreateOptions) (console : Console)
    → (confirm_no_pin no_pin options console).0 ≡ ok tt
    → (options.secret_input ≡ auto) × ((options.confirmed ≡ true) ⊎ IsConfirmed console)
unfolding confirm_no_pin
confirm_no_pin-ok options console h =
    let (u, asked, f, h') =
      then_do-ok (if options.confirmed then (ok tt, console) else require_confirmation console) _
        h in
    (
      is_auto-auto options.secret_input (
          not-eq-false
            (fail_if-eq-ok (not (is_auto options.secret_input)) pin_options_without_pin h')),
      elim (Bool-cases options.confirmed) [
        | inl e ↦ inl e
        | inr e ↦ inr (
            require_confirmation-IsConfirmed console (
              subst (λ b. (if b then (ok tt, console) else require_confirmation console).0 ≡ ok tt)
                e asked))
      ],
    )

allowed :
    (graphical : Bool) (name : Bytes) (policy : KeyUsePolicy) (options : CreateOptions)
    (console : Console) {given : TpmAuthorization}
    → (confirm_no_pin policy options console).0 ≡ ok tt
    → (new_authorization graphical name policy options.secret_input
        (confirm_no_pin policy options console).1).0
      ≡ ok given
    → IsAllowed options policy given console
unfolding new_authorization
allowed graphical name no_pin options console confirmed h =
    let (automatic, agreed) = confirm_no_pin-ok options console confirmed in
    (sym (ok-injective h), automatic, agreed)
allowed graphical name tpm_pin options console confirmed h =
    let c = (confirm_no_pin tpm_pin options console).1 in
    let (secret, read, f, h') =
      then_do-ok (read_new_pin graphical name options.secret_input c) _ h in
    (
      secret,
      sym (ok-injective h'),
      read_pin-IsAccepted graphical name options.secret_input c secret (inl read),
    )

module _ (t : Tss) (connected : Result TpmError (ℕ × Bytes)) (setup : Setup) where
  -- The key of a successful run: made by the TPM for the name, the algorithm and the authorization,
  -- saved in the store, and printed by its identifier.
  pub record IsMadeKey (name : Bytes) (algorithm : KeyAlgorithm) (given : TpmAuthorization)
      (w w' : Shell × t.State) : Type 0 where
    pub parent : ℕ
    pub parent_name : Bytes
    pub open_tpm : connected ≡ ok (parent, parent_name)
    pub summary : KeySummary
    pub object : TpmObject
    pub generated :
        (generate t parent parent_name name algorithm given w.1).0 ≡ ok (summary, object)
    pub store : FilePath
    pub located : setup.store ≡ ok store
    pub saved :
        (save store setup.process (record { summary = summary; object = object }) w.0.files).0
        ≡ ok tt
    pub files_after :
        w'.0.files
        ≡ (save store setup.process (record { summary = summary; object = object }) w.0.files).1
    pub printed_after : w'.0.printed ≡ w.0.printed ++ as_str summary.id ∷ []

  make_key-IsMadeKey :
      (name : Bytes) (algorithm : KeyAlgorithm) (given : TpmAuthorization) (shell : Shell)
      (s : t.State)
      → (make_key t connected setup name algorithm given (shell, s)).0 ≡ ok tt
      → IsMadeKey name algorithm given
          (shell, s)
          (make_key t connected setup name algorithm given (shell, s)).1
  unfolding make_key generate_key save_key println
  make_key-IsMadeKey name algorithm given shell s h =
      let w : Shell × t.State = (shell, s) in
      let ((parent, parent_name), e₁, f₁, h₁) = then_do-ok (map_err tpm_failed connected, w) _ h in
      let ((summary, object), e₂, f₂, h₂) =
        then_do-ok (generate_key t connected setup name algorithm given (parent, parent_name) w) _
          h₁ in
      let w₂ = (generate_key t connected setup name algorithm given (parent, parent_name) w).1 in
      let (store, e₃, f₃, h₃) = then_do-ok (setup.store, w₂) _ h₂ in
      let (u, e₄, f₄, h₄) =
        then_do-ok (save_key t connected setup store (summary, object) w₂) _ h₃ in
      let same = f₁ ∙ f₂ ∙ f₃ ∙ f₄ in
      record {
        parent = parent;
        parent_name = parent_name;
        open_tpm = map_err-eq-ok tpm_failed connected e₁;
        summary = summary;
        object = object;
        generated = map_err-eq-ok tpm_failed _ e₂;
        store = store;
        located = e₃;
        saved = map_err-eq-ok store_failed _ e₄;
        files_after = ap (λ r. r.1.0.files) same;
        printed_after = ap (λ r. r.1.0.printed) same;
      }

  -- The arguments of a run of `key create` that succeeds are those of a sequence of settings that
  -- apply one after the other and give a name of 1 to 4096 bytes and a policy; a key without a PIN
  -- has no source of one and was confirmed, by the option or by a yes typed in the terminal; a PIN
  -- has 6 to 64 bytes; the TPM made the key for
  -- that name and that authorization, and its record is saved in the store and its identifier
  -- printed.
  pub create_key-IsMadeKey :
      (arguments : List Bytes) (shell : Shell) (s : t.State)
      → (create_key t connected setup arguments (shell, s)).0 ≡ ok tt
      → (options : CreateOptions) × IsWritten initial arguments options
        × ((name : Bytes) × (policy : KeyUsePolicy) × (given : TpmAuthorization) × IsComplete
              options name policy
            × IsAllowed options policy given shell.console
            × IsMadeKey name options.algorithm given
                (shell, s)
                (create_key t connected setup arguments (shell, s)).1)
  unfolding create_key ask
  create_key-IsMadeKey arguments shell s h =
      let w : Shell × t.State = (shell, s) in
      let (options, parsed, f₁, h₁) = then_do-ok (create_options initial arguments, w) _ h in
      let ((name, policy), checked, f₂, h₂) = then_do-ok (check_options options, w) _ h₁ in
      let (u, confirmed, f₃, h₃) =
        then_do-ok (ask (confirm_no_pin policy options shell.console) w) _ h₂ in
      let w₃ = (ask (confirm_no_pin policy options shell.console) w).1 in
      let (given, authorized, f₄, h₄) =
        then_do-ok
          (ask (new_authorization setup.graphical name policy options.secret_input w₃.0.console) w₃)
          _ h₃ in
      let w₄ =
        (ask (new_authorization setup.graphical name policy options.secret_input w₃.0.console)
          w₃).1 in
      let m = make_key-IsMadeKey name options.algorithm given w₄.0 w₄.1 h₄ in
      (
        options,
        (create_options_iff initial options arguments).0 parsed,
        (
          name,
          policy,
          given,
          check_options-IsComplete options checked,
          allowed setup.graphical name policy options shell.console confirmed authorized,
          subst (λ r. IsMadeKey name options.algorithm given w r.1) (sym (f₁ ∙ f₂ ∙ f₃ ∙ f₄))
              (record {
                parent = m.parent;
                parent_name = m.parent_name;
                open_tpm = m.open_tpm;
                summary = m.summary;
                object = m.object;
                generated = m.generated;
                store = m.store;
                located = m.located;
                saved = m.saved;
                files_after = m.files_after;
                printed_after = m.printed_after;
              }),
        ),
      )

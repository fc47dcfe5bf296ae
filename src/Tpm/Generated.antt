-- ===== src/Tpm/Generated.antt =====
-- A new key and the object that is stored for it.
use keyvisor.Tpm.Checked.{with_encrypted_session-ok}
use keyvisor.Wire.Hex.{hex}
use keyvisor.Tpm.Codec.{authorization_value}
use keyvisor.Tpm.Defs.{TpmObject, TpmAuthorization}
use keyvisor.Tpm.Generate.{finish_key, generate, created_name}
use keyvisor.Tpm.Esapi.{
  check_object, ssh_public_key, from_tss, check_curves, with_encrypted_session,
}
use keyvisor.Core.{KeyAlgorithm, KeyUsePolicy, KeySummary}
use keyvisor.Wire.Endian.{Bytes}
use keyvisor.Tpm.Template.{Public, validate_public, ecc_curve, create_public}
use keyvisor.Tpm.Tss.{Tss, map_tss_error}
use keyvisor.Prelude.{
  ℕ, ◌≡◌, refl, subst, true, none, some, bytes_eq_refl, ok, ◌>>◌, map_err, bind-eq-ok, ok-injective,
  map_err-eq-ok, then_do-ok,
}

-- What the library documents of its encodings: a public area is read back from what it is
-- marshalled to, and a private blob that `create` returns is one that `Private` can hold.
pub record IsFaithful (t : Tss) : Type 0 where
  pub unmarshall-marshall :
      (public : Public) (bytes : Bytes)
      → t.marshall public ≡ ok bytes
      → t.unmarshall bytes ≡ some public
  pub created_fits :
      (session parent : ℕ) (template : Public) (auth : Bytes) (s : t.State) (private : Bytes)
      (public : Public)
      → (t.create session parent template auth s).0 ≡ ok (private, public)
      → t.fits_private private ≡ true

-- What is returned belongs together: the public key is that of the stored object, the policies
-- agree, and the object passes the checks before a load.
pub record IsUsable (t : Tss) (parent : ℕ) (parent_name name : Bytes) (algorithm : KeyAlgorithm)
    (use_policy : KeyUsePolicy) (summary : KeySummary) (object : TpmObject) : Type 0 where
  pub public : Public
  pub accepted : check_object t parent parent_name object algorithm ≡ ok public
  pub own_key : ssh_public_key public algorithm ≡ ok summary.public_key
  pub child_name : Bytes
  pub named_by_tpm : summary.id.value ≡ hex child_name
  pub same_name : summary.name ≡ name
  pub same_algorithm : summary.algorithm ≡ algorithm
  pub summary_policy : summary.use_policy ≡ use_policy
  pub object_policy : object.use_policy ≡ use_policy

module _ (t : Tss) (parent : ℕ) (parent_name : Bytes) where
  check_object-eq :
      (object : TpmObject) (algorithm : KeyAlgorithm) (public : Public)
      → object.parent_name ≡ parent_name
      → t.unmarshall object.public ≡ some public
      → validate_public public algorithm object.use_policy ≡ ok tt
      → t.fits_private object.wrapped_private ≡ true
      → check_object t parent parent_name object algorithm ≡ ok public
  unfolding check_object
  check_object-eq object algorithm public same read valid fits =
      rw (same, bytes_eq_refl parent_name, read, valid, fits) refl

  finish_key-IsUsable :
      IsFaithful t
      → (name : Bytes) (algorithm : KeyAlgorithm) (use_policy : KeyUsePolicy) (private : Bytes)
        (public : Public) (s : t.State) {summary : KeySummary} {object : TpmObject}
      → t.fits_private private ≡ true
      → (finish_key t parent parent_name name algorithm use_policy (private, public) s).0
        ≡ ok (summary, object)
      → IsUsable t parent parent_name name algorithm use_policy summary object
  unfolding finish_key
  finish_key-IsUsable faithful name algorithm use_policy private public s {summary} {object} fits
        h =
      let (public_key, e₁, f₁, h₁) =
        then_do-ok
          (validate_public public algorithm use_policy >> ssh_public_key public algorithm, s) _ h in
      let (u, valid, keyed) = bind-eq-ok (validate_public public algorithm use_policy) _ e₁ in
      let (child_name, e₂, f₂, h₂) = then_do-ok (created_name t parent private public s) _ h₁ in
      let (bytes, e₃, f₃, h₃) =
        then_do-ok
          (map_err map_tss_error (t.marshall public), (created_name t parent private public s).1) _
          h₂ in
      let marshalled = map_err-eq-ok map_tss_error _ e₃ in
      subst (λ p. IsUsable t parent parent_name name algorithm use_policy p.0 p.1) (ok-injective h₃)
        (record {
          public = public;
          accepted =
              check_object-eq _ algorithm public refl
                (faithful.unmarshall-marshall public bytes marshalled) valid fits;
          own_key = keyed;
          child_name = child_name;
          named_by_tpm = refl;
          same_name = refl;
          same_algorithm = refl;
          summary_policy = refl;
          object_policy = refl;
        })

  -- Where the library reads back the public areas that it writes, and a created private part fits,
  -- a key that `generate` returns can be used: its object passes the checks of `load` for its
  -- algorithm, its public key and its policy are those of the object, and the policy is the one
  -- that the authorization stands for.
  pub generate-IsUsable :
      IsFaithful t
      → (name : Bytes) (algorithm : KeyAlgorithm) (given : TpmAuthorization) (s : t.State)
        {summary : KeySummary} {object : TpmObject}
      → (generate t parent parent_name name algorithm given s).0 ≡ ok (summary, object)
      → (auth : Bytes) × (use_policy : KeyUsePolicy) × (authorization_value t.auth_capacity given
          ≡ ok (auth, use_policy))
        × IsUsable t parent parent_name name algorithm use_policy summary object
  unfolding generate from_tss
  generate-IsUsable faithful name algorithm given s h =
      let (capabilities, e₁, f₁, h₁) =
        then_do-ok (from_tss t (t.get_capability (ecc_curve algorithm) s)) _ h in
      let s₁ = (from_tss t (t.get_capability (ecc_curve algorithm) s)).1 in
      let (u, e₂, f₂, h₂) = then_do-ok (check_curves algorithm capabilities, s₁) _ h₁ in
      let ((auth, use_policy), e₃, f₃, h₃) =
        then_do-ok (authorization_value t.auth_capacity given, s₁) _ h₂ in
      let ((private, public), e₄, f₄, h₄) =
        then_do-ok
          (from_tss t (
            with_encrypted_session t parent none
              (λ session. t.create session parent (create_public algorithm use_policy) auth) s₁))
          _ h₃ in
      let (session, s', created) =
        with_encrypted_session-ok t parent none
          (λ session. t.create session parent (create_public algorithm use_policy) auth) s₁
          (map_err-eq-ok map_tss_error _ e₄) in
      let fits =
        faithful.created_fits session parent (create_public algorithm use_policy) auth s' private
          public created in
      (
        auth,
        use_policy,
        e₃,
        finish_key-IsUsable faithful name algorithm use_policy private public _ fits h₄,
      )

-- ===== src/Tpm/Checked.antt =====
-- What a signature and a new key went through.
use keyvisor.Tpm.Authorized.{
  IsDigestFor, MayUse, digest_size-IsDigestFor, authorization_value-MayUse,
}
use keyvisor.Tpm.Validated.{IsSigningKey, validate_public_iff}
use keyvisor.Core.{no_pin, tpm_pin}
use keyvisor.Tpm.Tss.{other_signature}
use keyvisor.Tpm.Esapi.{sign, load}
use keyvisor.Tpm.Codec.{authorization_value, raw_signature}
use keyvisor.Tpm.Template.{Public, hash_algorithm, validate_public}
use keyvisor.Wire.Endian.{Bytes}
use keyvisor.Tpm.Defs.{TpmObject, TpmAuthorization, invalid_authorization, invalid_object, TpmError}
use keyvisor.Tpm.Esapi.{
  check_request, check_object, sign_loaded, both, with_encrypted_session, from_tss, in_session,
  signature_bytes, run_in_session, session_of,
}
use keyvisor.Tpm.Tss.{Tss, ec_dsa_signature, Signature, TssError, map_tss_error}
use keyvisor.Core.{KeyUsePolicy, policy_eq, KeyAlgorithm, digest_size}
use keyvisor.Prelude.{
  ℕ, ◌≡◌, refl, ap, ◌∙◌, subst, true, not, Option, none, some, ==_iff, length, bytes_eq,
  bytes_eq_sound, Result, ok, err, fail_if, map_err, bind-eq-ok, ok-injective, not-eq-false,
  fail_if-eq-ok, map_err-eq-ok, then_do-ok,
}

pub policy_eq_sound : (a b : KeyUsePolicy) → policy_eq a b ≡ true → a ≡ b
policy_eq_sound no_pin no_pin h = refl
policy_eq_sound no_pin tpm_pin h = cc
policy_eq_sound tpm_pin no_pin h = cc
policy_eq_sound tpm_pin tpm_pin h = refl

both-ok :
    {E A : Type 0} (r : Result E A) (f : Result E (Unit {0})) {a : A} → both r f ≡ ok a → r ≡ ok a
unfolding both
both-ok (ok x) (ok u) h = h
both-ok (ok x) (err e) h = cc
both-ok (err x) f h = cc

module _ (t : Tss) where
  check_request-ok :
      (object : TpmObject) (algorithm : KeyAlgorithm) (digest : Bytes) (given : TpmAuthorization)
      {auth : Bytes}
      → check_request t object algorithm digest given ≡ ok auth
      → (length digest ≡ digest_size algorithm)
        × (authorization_value t.auth_capacity given ≡ ok (auth, object.use_policy))
  unfolding check_request
  check_request-ok object algorithm digest given h =
      let (u, sized, h₁) = bind-eq-ok _ _ h in
      let ((auth, use_policy), valued, h₂) =
        bind-eq-ok (authorization_value t.auth_capacity given) _ h₁ in
      let (v, same, h₃) =
        bind-eq-ok (fail_if (not (policy_eq use_policy object.use_policy)) invalid_authorization) _
          h₂ in
      let p =
        policy_eq_sound use_policy object.use_policy
          (not-eq-false (fail_if-eq-ok _ invalid_authorization same)) in
      ((==_iff _ _).0 (not-eq-false (fail_if-eq-ok _ invalid_object sized)), cc)

  check_object-ok :
      (parent : ℕ) (parent_name : Bytes) (object : TpmObject) (algorithm : KeyAlgorithm)
      {public : Public}
      → check_object t parent parent_name object algorithm ≡ ok public
      → (object.parent_name ≡ parent_name)
        × (t.unmarshall object.public ≡ some public)
        × IsSigningKey public algorithm object.use_policy
  unfolding check_object
  check_object-ok parent parent_name object algorithm {public} h =
      let (u, same, h₁) =
        bind-eq-ok (fail_if (not (bytes_eq object.parent_name parent_name)) invalid_object) _ h in
      let (p, read, h₂) =
        bind-eq-ok (elim (t.unmarshall object.public) [ none ↦ err invalid_object | some p ↦ ok p ])
          _ h₁ in
      let (v, valid, h₃) = bind-eq-ok (validate_public p algorithm object.use_policy) _ h₂ in
      let (w, fits, h₄) =
        bind-eq-ok (fail_if (not (t.fits_private object.wrapped_private)) invalid_object) _ h₃ in
      let e : p ≡ public = ok-injective h₄ in
      (
        bytes_eq_sound _ _ (not-eq-false (fail_if-eq-ok _ invalid_object same)),
        unmarshalled (t.unmarshall object.public) read ∙ ap some e,
        subst (λ q. IsSigningKey q algorithm object.use_policy) e
            ((validate_public_iff p algorithm object.use_policy).0.0 valid),
      )
    where
      unmarshalled :
          (o : Option Public) {p : Public}
          → ◌≡◌ {A = Result TpmError Public}
              (elim o [ none ↦ err invalid_object | some p ↦ ok p ])
              (ok p)
          → o ≡ some p
      unmarshalled none e = cc
      unmarshalled (some p) e = ap some (ok-injective e)

  -- An operation that succeeds in a session did so on some session.
  pub with_encrypted_session-ok :
      {A : Type 0} (parent : ℕ) (bind : Option ℕ)
      (operation : ℕ → t.State → Result TssError A × t.State) (s : t.State) {a : A}
      → (with_encrypted_session t parent bind operation s).0 ≡ ok a
      → (session : ℕ) × (s' : t.State) × ((operation session s').0 ≡ ok a)
  unfolding with_encrypted_session in_session run_in_session
  with_encrypted_session-ok parent bind operation s h =
      let (started, e₁, f₁, h₁) = then_do-ok (t.start_auth_session parent bind s) _ h in
      let s₁ = (t.start_auth_session parent bind s).1 in
      let (session, e₂, f₂, h₂) = then_do-ok (session_of started, s₁) _ h₁ in
      let (u, e₃, f₃, h₃) = then_do-ok (t.tr_sess_set_attributes session s₁) _ h₂ in
      (session, (t.tr_sess_set_attributes session s₁).1, both-ok _ _ h₃)

  -- The signature of `sign_loaded` is one that the TPM made.
  sign_loaded-ok :
      (parent : ℕ) (algorithm : KeyAlgorithm) (digest : Bytes) (child : ℕ) (s : t.State)
      {raw : Bytes}
      → (sign_loaded t parent algorithm digest child s).0 ≡ ok raw
      → (session : ℕ) × (s' : t.State) × (r : Bytes) × (q : Bytes) × ((t.sign session child digest
            (hash_algorithm algorithm)
            s').0
          ≡ ok (ec_dsa_signature r q))
        × (raw_signature algorithm r q ≡ ok raw)
  unfolding sign_loaded from_tss signature_bytes
  sign_loaded-ok parent algorithm digest child s {raw} h =
      let operation : ℕ → t.State → Result TssError Signature × t.State =
        λ session. t.sign session child digest (hash_algorithm algorithm) in
      let (made, e, f, h₁) =
        then_do-ok
          (both (from_tss t (with_encrypted_session t parent (some child) operation s)).0 _, _) _
          h in
      let (session, s', signed) =
        with_encrypted_session-ok parent (some child) operation s
          (map_err-eq-ok map_tss_error _ (both-ok _ _ e)) in
      raw_of made session s' signed h₁
    where
      raw_of :
          (made : Signature) (session : ℕ) (s' : t.State)
          → (t.sign session child digest (hash_algorithm algorithm) s').0 ≡ ok made
          → signature_bytes algorithm made ≡ ok raw
          → (session : ℕ) × (s' : t.State) × (r : Bytes) × (q : Bytes) × ((t.sign session child
                digest
                (hash_algorithm algorithm)
                s').0
              ≡ ok (ec_dsa_signature r q))
            × (raw_signature algorithm r q ≡ ok raw)
      raw_of (ec_dsa_signature r q) session s' signed e = (session, s', r, q, signed, e)
      raw_of keyvisor.Tpm.Tss.other_signature session s' signed e = cc

-- The TPM was asked to sign `digest`, in a session, with the key that the object stands for, and
-- answered with scalars of which `raw` is the encoding; before that the value of the authorization
-- was set for the key.
abbrev pub IsMade :
    (t : Tss) → ℕ → Bytes → TpmObject → KeyAlgorithm → Bytes → Bytes → t.State → Bytes → Type 0
IsMade t parent parent_name object algorithm digest value s raw =
    (child : ℕ) × ((load t parent parent_name object algorithm s).0 ≡ ok child)
    × ((t.tr_set_auth child value (load t parent parent_name object algorithm s).1).0 ≡ ok tt)
    × ((session : ℕ) × (s' : t.State) × (r : Bytes) × (q : Bytes) × ((t.sign session child digest
            (hash_algorithm algorithm) s').0
          ≡ ok (ec_dsa_signature r q))
        × (raw_signature algorithm r q ≡ ok raw))

-- The object is of this parent, and its public area is that of a signing key of its algorithm and
-- policy.
abbrev pub IsOwn : (t : Tss) → Bytes → TpmObject → KeyAlgorithm → Type 0
IsOwn t parent_name object algorithm =
    (object.parent_name ≡ parent_name)
    × ((public : Public) × (t.unmarshall object.public ≡ some public)
        × IsSigningKey public algorithm object.use_policy)

load-IsOwn :
    (t : Tss) (parent : ℕ) (parent_name : Bytes) (object : TpmObject) (algorithm : KeyAlgorithm)
    (s : t.State) {child : ℕ}
    → (load t parent parent_name object algorithm s).0 ≡ ok child
    → IsOwn t parent_name object algorithm
unfolding load
load-IsOwn t parent parent_name object algorithm s h =
    let (public, checked, f, h') =
      then_do-ok (check_object t parent parent_name object algorithm, s) _ h in
    let (same, read, valid) = check_object-ok t parent parent_name object algorithm checked in
    (same, (public, read, valid))

-- A signature that `sign` returns is the encoding of scalars that the TPM returned for that digest,
-- of 32 bytes for P-256 and 48 for P-384, and for the loaded key, for which the PIN had been set. The key's policy
-- was to have no PIN and none was given, or to have one and a PIN was given that is not empty and
-- fits the TPM's buffer. The object was of this parent, and its public area a signing key's with the
-- checked flags, curve and scheme of its algorithm and policy.
pub sign-IsMade :
    (t : Tss) (parent : ℕ) (parent_name : Bytes) (object : TpmObject) (algorithm : KeyAlgorithm)
    (digest : Bytes) (given : TpmAuthorization) (s : t.State) {raw : Bytes}
    → (sign t parent parent_name object algorithm digest given s).0 ≡ ok raw
    → IsDigestFor algorithm digest
      × IsOwn t parent_name object algorithm
      × ((value : Bytes) × MayUse t.auth_capacity given object.use_policy value
          × IsMade t parent parent_name object algorithm digest value s raw)
unfolding sign from_tss
sign-IsMade t parent parent_name object algorithm digest given s h =
    let (auth, requested, f₁, h₁) =
      then_do-ok (check_request t object algorithm digest given, s) _ h in
    let (child, loaded, f₂, h₂) = then_do-ok (load t parent parent_name object algorithm s) _ h₁ in
    let s₂ = (load t parent parent_name object algorithm s).1 in
    let (u, set, f₃, h₃) = then_do-ok (from_tss t (t.tr_set_auth child auth s₂)) _ h₂ in
    let s₃ = (t.tr_set_auth child auth s₂).1 in
    let (v, made, f₄, h₄) = then_do-ok (map_err map_tss_error (t.digest_of digest), s₃) _ h₃ in
    let (w, ticket, f₅, h₅) = then_do-ok (map_err map_tss_error t.hashcheck_ticket, s₃) _ h₄ in
    let (sized, valued) = check_request-ok t object algorithm digest given requested in
    (
      digest_size-IsDigestFor algorithm digest sized,
      load-IsOwn t parent parent_name object algorithm s loaded,
      (
        auth,
        authorization_value-MayUse t.auth_capacity given valued,
        (
          child,
          loaded,
          map_err-eq-ok map_tss_error _ set,
          sign_loaded-ok t parent algorithm digest child s₃ h₅,
        ),
      ),
    )

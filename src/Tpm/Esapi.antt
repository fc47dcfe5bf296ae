-- ===== src/Tpm/Esapi.antt =====
-- `EsapiTpm`: loading, signing and generating keys by the calls of the TPM library.
use keyvisor.Wire.Strings.{string}
use keyvisor.Tpm.Codec.{point_bytes, raw_signature, authorization_value}
use keyvisor.Wire.Endian.{Bytes}
use keyvisor.Prelude.{
  ℕ, Bool, false, not, ◌||◌, Option, none, some, List, [], ◌∷◌, ◌++◌, ◌==◌, if◌then◌else◌, length,
  bytes_eq, Result, ok, err, ◌>>=◌, ◌>>◌, fail_if, map_err, then_do,
}
use keyvisor.Core.{KeyAlgorithm, policy_eq, digest_size, ssh_key_type, ssh_curve_name}
use keyvisor.Tpm.Defs.{
  TpmAuthorization, TpmObject, TpmError, DictionaryAttackState, invalid_object,
  invalid_authorization, unsupported_algorithm, transport,
}
use keyvisor.Tpm.Tss.{
  Tss, TssError, wrapper, Signature, ec_dsa_signature, other_signature, CapabilityData, ecc_curves,
  other_capability, PropertyTag, lockout_counter, max_auth_fail, lockout_interval, lockout_recovery,
  map_tss_error,
}
use keyvisor.Tpm.Template.{
  Public, ecc, other_public, EccCurve, ecc_curve, curve_eq, validate_public, hash_algorithm,
}

-- The result of a command, and of the release after it: the command's error comes first.
unfoldable pub both {ℓ} : {E : Type 0} {A : Type ℓ} → Result E A → Result E (Unit {0}) → Result E A
both (err e) r = err e
both (ok a) (err e) = err e
both (ok a) (ok u) = ok a

unfoldable pub session_of : Option ℕ → Result TssError ℕ
session_of none = err wrapper
session_of (some session) = ok session

-- `append_ssh_string`, whose `expect` holds for a value below 2^32 bytes; its callers append names
-- and points of the curves.
abbrev pub append_ssh_string : Bytes → Bytes → Bytes
append_ssh_string output value = output ++ string value

unfoldable pub ssh_public_key : Public → KeyAlgorithm → Result TpmError Bytes
unfolding point_bytes
ssh_public_key (other_public attributes) algorithm = err invalid_object
ssh_public_key (ecc attributes name_hash auth_policy parameters x y) algorithm = do
  point ← point_bytes algorithm x y
  ok (
      append_ssh_string
        (append_ssh_string (string (ssh_key_type algorithm)) (ssh_curve_name algorithm)) point)

unfoldable pub signature_bytes : KeyAlgorithm → Signature → Result TpmError Bytes
signature_bytes algorithm (ec_dsa_signature r s) = raw_signature algorithm r s
signature_bytes algorithm other_signature = err invalid_object

-- `curves.contains(&ecc_curve(algorithm))`
unfoldable pub contains_curve : EccCurve → List EccCurve → Bool
contains_curve curve [] = false
contains_curve curve (c ∷ curves) = curve_eq c curve || contains_curve curve curves

unfoldable pub check_curves : KeyAlgorithm → CapabilityData → Result TpmError (Unit {0})
unfolding contains_curve
check_curves algorithm (ecc_curves curves) =
    if contains_curve (ecc_curve algorithm) curves then ok tt else err unsupported_algorithm
check_curves algorithm other_capability = err transport

-- The library: the calls on its `Context`.
module _ (t : Tss) where
  unfoldable pub from_tss {ℓ} :
      {A : Type ℓ} → Result TssError A × t.State → Result TpmError A × t.State
  from_tss (r, s) = (map_err map_tss_error r, s)

  -- `execute_with_session`, and the release of the session whatever the operation returns.
  unfoldable pub run_in_session {ℓ} :
      {A : Type ℓ} → ℕ → Result TssError A × t.State → Result TssError A × t.State
  run_in_session session (r, s) = let (f, s') = t.flush_context session s in (both r f, s')

  -- `with_encrypted_session` once the session is started.
  unfoldable pub in_session {ℓ} :
      {A : Type ℓ}
      → (ℕ → t.State → Result TssError A × t.State)
      → Option ℕ
      → t.State
      → Result TssError A × t.State
  unfolding run_in_session session_of
  in_session operation started s =
      then_do (session_of started, s)
        λ session s₁.
          then_do (t.tr_sess_set_attributes session s₁)
            λ _ s₂. run_in_session session (operation session s₂)

  -- What `sign` checks first: the value that authorizes the key.
  unfoldable pub check_request :
      TpmObject → KeyAlgorithm → Bytes → TpmAuthorization → Result TpmError Bytes
  check_request object algorithm digest authorization = do
    fail_if (not (length digest == digest_size algorithm)) invalid_object
    (auth, use_policy) ← authorization_value t.auth_capacity authorization
    fail_if (not (policy_eq use_policy object.use_policy)) invalid_authorization
    ok auth

  unfoldable pub required_property : PropertyTag → t.State → Result TpmError ℕ × t.State
  unfolding from_tss
  required_property property s =
      then_do (from_tss (t.get_tpm_property property s))
        λ found s₁. (elim found [ none ↦ err transport | some n ↦ ok n ], s₁)

  unfoldable pub dictionary_attack_state : t.State → Result TpmError DictionaryAttackState × t.State
  unfolding required_property
  dictionary_attack_state s = then_do (required_property lockout_counter s) λ failed s₁.
      then_do (required_property max_auth_fail s₁) λ most s₂.
        then_do (required_property lockout_interval s₂) λ recovery s₃.
          then_do (required_property lockout_recovery s₃) λ lockout s₄. (
            ok (record {
              failed_tries = failed;
              max_tries = most;
              recovery_time_seconds = recovery;
              lockout_recovery_seconds = lockout;
            }),
            s₄,
          )

-- And the storage parent.
module _ (t : Tss) (parent : ℕ) where
  unfoldable pub with_encrypted_session {ℓ} :
      {A : Type ℓ}
      → Option ℕ
      → (ℕ → t.State → Result TssError A × t.State)
      → t.State
      → Result TssError A × t.State
  unfolding in_session
  with_encrypted_session bind operation s =
      then_do (t.start_auth_session parent bind s) (in_session t operation)

  -- From `context.sign` on: the transient object is released whatever the command returns.
  unfoldable pub sign_loaded : KeyAlgorithm → Bytes → ℕ → t.State → Result TpmError Bytes × t.State
  unfolding from_tss with_encrypted_session both signature_bytes
  sign_loaded algorithm digest child s =
      let (signature, s₁) = from_tss t (
        with_encrypted_session (some child)
          (λ session. t.sign session child digest (hash_algorithm algorithm)) s) in
      let (flush, s₂) = from_tss t (t.flush_context child s₁) in
      then_do (both signature flush, s₂) (λ made s₃. (signature_bytes algorithm made, s₃))

-- And the name of the parent: the fields of `EsapiTpm`.
module _ (t : Tss) (parent : ℕ) (parent_name : Bytes) where
  -- What `load` checks before it asks the TPM.
  unfoldable pub check_object : TpmObject → KeyAlgorithm → Result TpmError Public
  check_object object algorithm = do
    fail_if (not (bytes_eq object.parent_name parent_name)) invalid_object
    public ← elim (t.unmarshall object.public) [ none ↦ err invalid_object | some p ↦ ok p ]
    validate_public public algorithm object.use_policy
    fail_if (not (t.fits_private object.wrapped_private)) invalid_object
    ok public

  unfoldable pub load : TpmObject → KeyAlgorithm → t.State → Result TpmError ℕ × t.State
  unfolding from_tss with_encrypted_session check_object
  load object algorithm s =
      then_do (check_object object algorithm, s)
        λ public s₁. from_tss t (
          with_encrypted_session t parent none
            (λ session. t.load session parent object.wrapped_private public) s₁)

  unfoldable pub sign :
      TpmObject
      → KeyAlgorithm
      → Bytes
      → TpmAuthorization
      → t.State
      → Result TpmError Bytes × t.State
  unfolding check_request load sign_loaded
  sign object algorithm digest authorization s =
      then_do (check_request t object algorithm digest authorization, s)
        λ auth s₁. then_do (load object algorithm s₁) λ child s₂.
          then_do (from_tss t (t.tr_set_auth child auth s₂)) λ _ s₃.
            then_do (map_err map_tss_error (t.digest_of digest), s₃)
              λ _ s₄.
                then_do (map_err map_tss_error t.hashcheck_ticket, s₄)
                  λ _ s₅. sign_loaded t parent algorithm digest child s₅

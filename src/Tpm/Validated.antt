-- ===== src/Tpm/Validated.antt =====
-- Which public areas are accepted.
use keyvisor.Tpm.Template.{
  other_curve, nist_p256, nist_p384, ec_dsa, sha256, sha384, other_hash, other_scheme,
}
use keyvisor.Tpm.Template.{
  Attributes, EccParameters, Public, bool_eq, attributes_invalid, ecc_curve, validate_public,
  nist_p256, HashingAlgorithm, hash_algorithm, validate_parameters, create_public, ec_dsa, ecc,
  EccCurve, object_attributes, sha256, EccScheme, other_public, key_attributes, nist_p384,
  Symmetric, sha384, KeyDerivation, curve_eq, scheme_eq,
}
use keyvisor.Wire.Endian.{Bytes}
use keyvisor.Prelude.{◌≡◌, refl, ap, ◌∙◌, ◌↔◌, Bool, true, false, arith, ok}
use keyvisor.Core.{
  KeyAlgorithm, KeyUsePolicy, ecdsa_nist_p256, ecdsa_nist_p384, no_pin, tpm_pin, policy_eq,
}

-- Failed authorizations count for keys with a PIN only: `no_da` is set for the others.
abbrev pub IsCounted : KeyUsePolicy → Bool → Type 0
IsCounted no_pin no_da = no_da ≡ true
IsCounted tpm_pin no_da = no_da ≡ false

-- The flags that are checked.
pub record HasFlags (attributes : Attributes) (use_policy : KeyUsePolicy) : Type 0 where
  pub fixed : (attributes.fixed_tpm ≡ true) × (attributes.fixed_parent ≡ true)
  pub made_here : attributes.sensitive_data_origin ≡ true
  pub authorized : attributes.user_with_auth ≡ true
  pub counted : IsCounted use_policy attributes.no_da
  pub signs : attributes.sign_encrypt ≡ true
  pub only_signs : (attributes.decrypt ≡ false) × (attributes.restricted ≡ false)

-- The curve and the scheme of an algorithm.
abbrev pub Uses : KeyAlgorithm → EccParameters → Type 0
Uses ecdsa_nist_p256 parameters =
    (parameters.curve ≡ nist_p256) × (parameters.scheme ≡ ec_dsa sha256)
Uses ecdsa_nist_p384 parameters =
    (parameters.curve ≡ nist_p384) × (parameters.scheme ≡ ec_dsa sha384)

-- An elliptic curve key with the algorithm's curve and scheme and with the checked flags; the other
-- flags, the hash of the name, the authorization policy, the symmetric algorithm, the key derivation
-- and the point are any.
abbrev pub IsSigningKey : Public → KeyAlgorithm → KeyUsePolicy → Type 0
IsSigningKey public algorithm use_policy =
    (attributes : Attributes) × (name_hash : HashingAlgorithm) × (auth_policy : Bytes)
    × (parameters : EccParameters) × (x : Bytes) × (y : Bytes) × (public
        ≡ ecc attributes name_hash auth_policy parameters x y)
    × HasFlags attributes use_policy
    × Uses algorithm parameters

no_da_iff :
    (no_da : Bool) (use_policy : KeyUsePolicy)
    → (bool_eq no_da (policy_eq use_policy no_pin) ≡ true) ↔ IsCounted use_policy no_da
no_da_iff true no_pin = (λ h. refl, λ h. refl)
no_da_iff false no_pin = (λ h. cc, λ h. cc)
no_da_iff true tpm_pin = (λ h. cc, λ h. cc)
no_da_iff false tpm_pin = (λ h. refl, λ h. refl)

flags_sound :
    (attributes : Attributes) (use_policy : KeyUsePolicy)
    → attributes_invalid attributes use_policy ≡ false
    → HasFlags attributes use_policy
unfolding attributes_invalid
flags_sound attributes use_policy h = record {
  fixed = (ground arith, ground arith);
  made_here = ground arith;
  authorized = ground arith;
  counted = (no_da_iff attributes.no_da use_policy).0 (ground arith);
  signs = ground arith;
  only_signs = (ground arith, ground arith);
}

flags_complete :
    (attributes : Attributes) (use_policy : KeyUsePolicy)
    → HasFlags attributes use_policy
    → attributes_invalid attributes use_policy ≡ false
unfolding attributes_invalid
flags_complete attributes use_policy flags =
    let (tpm, parent) = flags.fixed in
    let (decrypts, restricts) = flags.only_signs in
    let counted = (no_da_iff attributes.no_da use_policy).1 flags.counted in
    rw (tpm, parent, flags.made_here, flags.authorized, flags.signs, decrypts, restricts, counted)
      refl

parameters_sound :
    (curve : EccCurve) (scheme : EccScheme) (cipher : Symmetric) (kdf : KeyDerivation)
    (algorithm : KeyAlgorithm)
    → curve_eq curve (ecc_curve algorithm) ≡ true
    → scheme_eq scheme (ec_dsa (hash_algorithm algorithm)) ≡ true
    → Uses algorithm
        (record { symmetric = cipher; scheme = scheme; curve = curve; derivation = kdf })
unfolding ecc_curve hash_algorithm
parameters_sound nist_p256 (ec_dsa sha256) cipher kdf ecdsa_nist_p256 hc hs = (refl, refl)
parameters_sound nist_p384 (ec_dsa sha384) cipher kdf ecdsa_nist_p384 hc hs = (refl, refl)
parameters_sound nist_p384 scheme cipher kdf ecdsa_nist_p256 hc hs = cc
parameters_sound other_curve scheme cipher kdf ecdsa_nist_p256 hc hs = cc
parameters_sound nist_p256 scheme cipher kdf ecdsa_nist_p384 hc hs = cc
parameters_sound other_curve scheme cipher kdf ecdsa_nist_p384 hc hs = cc
parameters_sound nist_p256 (ec_dsa sha384) cipher kdf ecdsa_nist_p256 hc hs = cc
parameters_sound nist_p256 (ec_dsa other_hash) cipher kdf ecdsa_nist_p256 hc hs = cc
parameters_sound nist_p256 other_scheme cipher kdf ecdsa_nist_p256 hc hs = cc
parameters_sound nist_p384 (ec_dsa sha256) cipher kdf ecdsa_nist_p384 hc hs = cc
parameters_sound nist_p384 (ec_dsa other_hash) cipher kdf ecdsa_nist_p384 hc hs = cc
parameters_sound nist_p384 other_scheme cipher kdf ecdsa_nist_p384 hc hs = cc

validate_public_sound :
    (public : Public) (algorithm : KeyAlgorithm) (use_policy : KeyUsePolicy)
    → validate_public public algorithm use_policy ≡ ok tt
    → IsSigningKey public algorithm use_policy
unfolding validate_public validate_parameters object_attributes
validate_public_sound (other_public attributes) algorithm use_policy h = absurd (ground arith)
validate_public_sound (ecc attributes name_hash auth_policy parameters x y) algorithm use_policy h =
    (
      attributes,
      name_hash,
      auth_policy,
      parameters,
      x,
      y,
      refl,
      flags_sound attributes use_policy (ground arith),
      parameters_sound parameters.curve parameters.scheme parameters.symmetric parameters.derivation
          algorithm (ground arith) (ground arith),
    )

validate_public_complete :
    (attributes : Attributes) (name_hash : HashingAlgorithm) (auth_policy : Bytes)
    (parameters : EccParameters) (x y : Bytes) (algorithm : KeyAlgorithm)
    (use_policy : KeyUsePolicy)
    → HasFlags attributes use_policy
    → Uses algorithm parameters
    → validate_public (ecc attributes name_hash auth_policy parameters x y) algorithm use_policy
      ≡ ok tt
unfolding validate_public validate_parameters object_attributes ecc_curve hash_algorithm
validate_public_complete attributes name_hash auth_policy parameters x y ecdsa_nist_p256 use_policy
      flags (curve, scheme) =
    rw (flags_complete attributes use_policy flags, curve, scheme) refl
validate_public_complete attributes name_hash auth_policy parameters x y ecdsa_nist_p384 use_policy
      flags (curve, scheme) =
    rw (flags_complete attributes use_policy flags, curve, scheme) refl

create_public-valid :
    (algorithm : KeyAlgorithm) (use_policy : KeyUsePolicy)
    → validate_public (create_public algorithm use_policy) algorithm use_policy ≡ ok tt
unfolding validate_public validate_parameters object_attributes attributes_invalid create_public
    key_attributes ecc_curve hash_algorithm
create_public-valid ecdsa_nist_p256 no_pin = refl
create_public-valid ecdsa_nist_p256 tpm_pin = refl
create_public-valid ecdsa_nist_p384 no_pin = refl
create_public-valid ecdsa_nist_p384 tpm_pin = refl

-- A public area is accepted exactly where it is an elliptic curve key with the algorithm's curve and
-- its ECDSA scheme, fixed to its TPM and its parent, made by the TPM, usable with its authorization,
-- for signatures only, and with failed authorizations counted exactly for a key with a PIN; nothing
-- else of it is checked. The template that `create_public` asks for is accepted.
pub validate_public_iff :
    (public : Public) (algorithm : KeyAlgorithm) (use_policy : KeyUsePolicy)
    → ((validate_public public algorithm use_policy ≡ ok tt)
        ↔ IsSigningKey public algorithm use_policy)
      × (validate_public (create_public algorithm use_policy) algorithm use_policy ≡ ok tt)
validate_public_iff public algorithm use_policy = (
  (
    validate_public_sound public algorithm use_policy,
    λ (attributes, name_hash, auth_policy, parameters, x, y, e, flags, uses).
        ap (λ p. validate_public p algorithm use_policy) e
        ∙ validate_public_complete attributes name_hash auth_policy parameters x y algorithm
            use_policy flags uses,
  ),
  create_public-valid algorithm use_policy,
)

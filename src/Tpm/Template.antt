-- ===== src/Tpm/Template.antt =====
-- `create_public` and `validate_public`: the template of a key, and the check of a stored one.
use keyvisor.Wire.Endian.{Bytes}
use keyvisor.Prelude.{Bool, true, false, not, ◌&&◌, ◌||◌, [], if◌then◌else◌, Result, ok, err}
use keyvisor.Core.{KeyAlgorithm, KeyUsePolicy, ecdsa_nist_p256, ecdsa_nist_p384, no_pin, policy_eq}
use keyvisor.Tpm.Defs.{TpmError, invalid_object}

pub data EccCurve : Type 0 where
  nist_p256 nist_p384 other_curve : EccCurve

pub data HashingAlgorithm : Type 0 where
  sha256 sha384 other_hash : HashingAlgorithm

-- ECDSA with a hash, or another scheme.
pub data EccScheme : Type 0 where
  ec_dsa : HashingAlgorithm → EccScheme
  other_scheme : EccScheme

-- `ObjectAttributes`
pub record Attributes : Type 0 where
  pub fixed_tpm : Bool
  pub st_clear : Bool
  pub fixed_parent : Bool
  pub sensitive_data_origin : Bool
  pub user_with_auth : Bool
  pub admin_with_policy : Bool
  pub no_da : Bool
  pub encrypted_duplication : Bool
  pub restricted : Bool
  pub decrypt : Bool
  pub sign_encrypt : Bool
  pub x509_sign : Bool

-- `SymmetricDefinitionObject` and `KeyDerivationFunctionScheme`
pub data Symmetric : Type 0 where
  no_symmetric other_symmetric : Symmetric

pub data KeyDerivation : Type 0 where
  no_derivation other_derivation : KeyDerivation

-- `PublicEccParameters`
pub record EccParameters : Type 0 where
  pub symmetric : Symmetric
  pub scheme : EccScheme
  pub curve : EccCurve
  pub derivation : KeyDerivation

-- `tss_esapi::structures::Public`: the attributes, the name's hash, the digest of the authorization
-- policy, the parameters and the point of an elliptic curve key, or a key of another kind.
pub data Public : Type 0 where
  ecc : Attributes → HashingAlgorithm → Bytes → EccParameters → Bytes → Bytes → Public
  other_public : Attributes → Public

unfoldable pub ecc_curve : KeyAlgorithm → EccCurve
ecc_curve ecdsa_nist_p256 = nist_p256
ecc_curve ecdsa_nist_p384 = nist_p384

unfoldable pub hash_algorithm : KeyAlgorithm → HashingAlgorithm
hash_algorithm ecdsa_nist_p256 = sha256
hash_algorithm ecdsa_nist_p384 = sha384

abbrev pub curve_eq : EccCurve → EccCurve → Bool
curve_eq nist_p256 nist_p256 = true
curve_eq nist_p384 nist_p384 = true
curve_eq other_curve other_curve = true
curve_eq a b = false

abbrev pub scheme_eq : EccScheme → EccScheme → Bool
scheme_eq (ec_dsa sha256) (ec_dsa sha256) = true
scheme_eq (ec_dsa sha384) (ec_dsa sha384) = true
scheme_eq (ec_dsa other_hash) (ec_dsa other_hash) = true
scheme_eq other_scheme other_scheme = true
scheme_eq a b = false

-- `==` on `bool`.
abbrev pub bool_eq : Bool → Bool → Bool
bool_eq true b = b
bool_eq false b = not b

unfoldable pub key_attributes : KeyUsePolicy → Attributes
key_attributes use_policy = record {
  fixed_tpm = true;
  st_clear = false;
  fixed_parent = true;
  sensitive_data_origin = true;
  user_with_auth = true;
  admin_with_policy = false;
  no_da = policy_eq use_policy no_pin;
  encrypted_duplication = false;
  restricted = false;
  decrypt = false;
  sign_encrypt = true;
  x509_sign = false;
}

-- The builders accept the template; its authorization policy and its point are the default, which is
-- empty, and `new_unrestricted_signing_key` takes no symmetric algorithm and no key derivation.
unfoldable pub create_public : KeyAlgorithm → KeyUsePolicy → Public
unfolding key_attributes ecc_curve hash_algorithm
create_public algorithm use_policy =
    ecc (key_attributes use_policy) sha256 []
      (record {
        symmetric = no_symmetric;
        scheme = ec_dsa (hash_algorithm algorithm);
        curve = ecc_curve algorithm;
        derivation = no_derivation;
      })
      [] []

unfoldable pub object_attributes : Public → Attributes
object_attributes (ecc attributes name_hash auth_policy parameters x y) = attributes
object_attributes (other_public attributes) = attributes

unfoldable pub attributes_invalid : Attributes → KeyUsePolicy → Bool
attributes_invalid attributes use_policy =
    not attributes.fixed_tpm
    || not attributes.fixed_parent
    || not attributes.sensitive_data_origin
    || not attributes.user_with_auth
    || not attributes.sign_encrypt
    || attributes.decrypt
    || attributes.restricted
    || not (bool_eq attributes.no_da (policy_eq use_policy no_pin))

unfoldable pub validate_parameters : Public → KeyAlgorithm → Result TpmError (Unit {0})
unfolding ecc_curve hash_algorithm
validate_parameters (other_public attributes) algorithm = err invalid_object
validate_parameters (ecc attributes name_hash auth_policy parameters x y) algorithm =
    if curve_eq parameters.curve (ecc_curve algorithm)
      && scheme_eq parameters.scheme (ec_dsa (hash_algorithm algorithm))
    then ok tt
    else err invalid_object

unfoldable pub validate_public : Public → KeyAlgorithm → KeyUsePolicy → Result TpmError (Unit {0})
unfolding attributes_invalid object_attributes validate_parameters
validate_public public algorithm use_policy =
    if attributes_invalid (object_attributes public) use_policy
    then err invalid_object
    else validate_parameters public algorithm

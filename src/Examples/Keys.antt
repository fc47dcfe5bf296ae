-- ===== src/Examples/Keys.antt =====
-- The TPM adapter at concrete keys.
use keyvisor.Tpm.Authorized.{IsDigestFor, MayUse}
use keyvisor.Wire.Hex.{hex}
use keyvisor.Tpm.Leaves.{sign-leaves}
use keyvisor.Tpm.Generated.{IsUsable, generate-IsUsable}
use keyvisor.Tpm.Checked.{IsOwn, IsMade, sign-IsMade}
use keyvisor.Tpm.Tss.{map_tss_error, response, lockout}
use keyvisor.Tpm.Released.{sign-generate-keep, IsReleased}
use keyvisor.Wire.Utf8.{codes}
use keyvisor.Tpm.Codec.{authorization_value, raw_signature, append_padded}
use keyvisor.Tpm.Template.{
  validate_public, attributes_invalid, object_attributes, validate_parameters, ecc_curve,
  hash_algorithm, create_public, key_attributes,
}
use keyvisor.Tpm.Generate.{generate, finish_key, created_name}
use keyvisor.Core.{
  digest_size, KeySummary, tpm_pin, ecdsa_nist_p256, KeyUsePolicy, ecdsa_component_size,
}
use keyvisor.Tpm.Esapi.{
  check_object, check_request, sign, load, from_tss, with_encrypted_session, in_session,
  run_in_session, session_of, both, sign_loaded, signature_bytes, check_curves, contains_curve,
  ssh_public_key,
}
use keyvisor.Examples.Library.{handles_of, library, library-IsAccounted, library-IsFaithful}
use keyvisor.Wire.Endian.{Bytes}
use keyvisor.Tpm.Defs.{TpmObject, TpmAuthorization, pin}
use keyvisor.Prelude.{
  ◌≡◌, refl, ap, Bool, true, false, some, [], ◌∷◌, ◌++◌, replicate, ok, err, then_do,
}

abbrev object : TpmObject
object = record {
  public = 1 ∷ 0 ∷ 1 ∷ 1 ∷ 1 ∷ 0 ∷ 0 ∷ 0 ∷ 0 ∷ 0 ∷ 1 ∷ 0 ∷ 1 ∷ 0 ∷ 2 ∷ 1 ∷ 0 ∷ 0 ∷ 1 ∷ 7 ∷ 8 ∷ [];
  wrapped_private = 5 ∷ 6 ∷ [];
  parent_name = 9 ∷ [];
  use_policy = tpm_pin;
}

abbrev digest : Bytes
digest = replicate 32 3

abbrev secret : TpmAuthorization
secret = pin (codes "123456")

-- The authorization of a loaded key cannot be set: `sign` fails, `generate` does not need it.
sign-generate-keep_example :
    IsReleased
      (library false)
      (handles_of false)
      (4 ∷ [])
      (sign (library false) 1 (9 ∷ []) object ecdsa_nist_p256 digest secret (4 ∷ []))
    × IsReleased
        (library false)
        (handles_of false)
        (4 ∷ [])
        (generate (library false) 1 (9 ∷ []) (codes "Work") ecdsa_nist_p256 secret (4 ∷ []))
sign-generate-keep_example =
    sign-generate-keep (library false) (handles_of false) (library-IsAccounted false) 1 (9 ∷ [])
      object (codes "Work") ecdsa_nist_p256 digest secret (4 ∷ [])

request-checked :
    (sets_auth : Bool)
    → check_request (library sets_auth) object ecdsa_nist_p256 digest secret ≡ ok (codes "123456")
unfolding check_request authorization_value digest_size
request-checked sets_auth = refl

object-loaded :
    (sets_auth : Bool)
    → load (library sets_auth) 1 (9 ∷ []) object ecdsa_nist_p256 (4 ∷ []) ≡ (ok 7, 7 ∷ 4 ∷ [])
unfolding load from_tss with_encrypted_session in_session run_in_session session_of both
    check_object validate_public attributes_invalid object_attributes validate_parameters ecc_curve
    hash_algorithm keyvisor.Prelude.then_do
object-loaded sets_auth = refl

abbrev raw : Bytes
raw = replicate 31 0 ++ 1 ∷ (replicate 31 0 ++ 2 ∷ [])

object-signed :
    (sign (library true) 1 (9 ∷ []) object ecdsa_nist_p256 digest secret (4 ∷ [])).0 ≡ ok raw
unfolding sign load from_tss with_encrypted_session in_session run_in_session session_of both
    check_object validate_public attributes_invalid object_attributes validate_parameters ecc_curve
    hash_algorithm keyvisor.Prelude.then_do check_request authorization_value digest_size
    sign_loaded signature_bytes raw_signature append_padded ecdsa_component_size
object-signed = refl

sign-leaves_example :
    ((sign (library false) 1 (9 ∷ []) object ecdsa_nist_p256 digest secret (4 ∷ [])).0
      ≡ err (map_tss_error (response (some lockout))))
    × (handles_of false
          (sign (library false) 1 (9 ∷ []) object ecdsa_nist_p256 digest secret (4 ∷ [])).1
        ≡ 7 ∷ 4 ∷ [])
sign-leaves_example =
    sign-leaves (library false) (handles_of false) (library-IsAccounted false) 1 (9 ∷ []) object
      ecdsa_nist_p256 digest secret (4 ∷ []) (request-checked false)
      (ap (λ r. r.0) (object-loaded false)) refl

sign-IsMade_example :
    IsDigestFor ecdsa_nist_p256 digest
    × IsOwn (library true) (9 ∷ []) object ecdsa_nist_p256
    × ((value : Bytes) × MayUse 32 secret tpm_pin value
        × IsMade (library true) 1 (9 ∷ []) object ecdsa_nist_p256 digest value (4 ∷ []) raw)
sign-IsMade_example =
    sign-IsMade (library true) 1 (9 ∷ []) object ecdsa_nist_p256 digest secret (4 ∷ [])
      object-signed

abbrev new_key : KeySummary × TpmObject
new_key = (
  record {
    id = record { value = codes "ab" };
    name = codes "Work";
    algorithm = ecdsa_nist_p256;
    use_policy = tpm_pin;
    public_key =
        (0 ∷ 0 ∷ 0 ∷ 19 ∷ [])
        ++ codes "ecdsa-sha2-nistp256"
        ++ (0 ∷ 0 ∷ 0 ∷ 8 ∷ [])
        ++ codes "nistp256"
        ++ (0 ∷ 0 ∷ 0 ∷ 65 ∷ 4 ∷ [])
        ++ replicate 31 0
        ++ (7 ∷ [])
        ++ replicate 31 0
        ++ 8 ∷ [];
  },
  object,
)

key-generated :
    (generate (library true) 1 (9 ∷ []) (codes "Work") ecdsa_nist_p256 secret (4 ∷ [])).0
    ≡ ok new_key
unfolding generate finish_key created_name from_tss with_encrypted_session in_session run_in_session
    session_of both create_public key_attributes check_curves contains_curve validate_public
    attributes_invalid object_attributes validate_parameters ecc_curve hash_algorithm
    keyvisor.Prelude.then_do authorization_value ssh_public_key hex append_padded
    ecdsa_component_size keyvisor.Tpm.Codec.point_bytes keyvisor.Core.ssh_key_type
    keyvisor.Core.ssh_curve_name keyvisor.Wire.Hex.lower_digit keyvisor.Wire.Endian.to_be_bytes
key-generated = refl

generate-IsUsable_example :
    (auth : Bytes) × (use_policy : KeyUsePolicy) × (authorization_value 32 secret
      ≡ ok (auth, use_policy))
    × IsUsable
        (library true)
        1
        (9 ∷ [])
        (codes "Work")
        ecdsa_nist_p256
        use_policy
        new_key.0
        new_key.1
generate-IsUsable_example =
    generate-IsUsable (library true) 1 (9 ∷ []) library-IsFaithful (codes "Work") ecdsa_nist_p256
      secret (4 ∷ []) key-generated

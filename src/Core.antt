-- ===== src/Core.antt =====
-- crates/keyvisor-core/src/lib.rs: the types that the processes share. A text is its bytes.
use keyvisor.Prelude.{ℕ, Bool, true, false}
use keyvisor.Wire.Endian.{Bytes}
use keyvisor.Wire.Utf8.{codes}

pub record KeyId : Type 0 where
  pub value : Bytes

abbrev pub as_str : KeyId → Bytes
as_str id = id.value

pub data KeyAlgorithm : Type 0 where
  ecdsa_nist_p256 ecdsa_nist_p384 : KeyAlgorithm

unfoldable pub ssh_key_type : KeyAlgorithm → Bytes
ssh_key_type ecdsa_nist_p256 = codes "ecdsa-sha2-nistp256"
ssh_key_type ecdsa_nist_p384 = codes "ecdsa-sha2-nistp384"

unfoldable pub ssh_curve_name : KeyAlgorithm → Bytes
ssh_curve_name ecdsa_nist_p256 = codes "nistp256"
ssh_curve_name ecdsa_nist_p384 = codes "nistp384"

unfoldable pub digest_size : KeyAlgorithm → ℕ
digest_size ecdsa_nist_p256 = 32
digest_size ecdsa_nist_p384 = 48

unfoldable pub ecdsa_component_size : KeyAlgorithm → ℕ
ecdsa_component_size ecdsa_nist_p256 = 32
ecdsa_component_size ecdsa_nist_p384 = 48

pub data KeyUsePolicy : Type 0 where
  no_pin tpm_pin : KeyUsePolicy

-- The derived `PartialEq`.
abbrev pub policy_eq : KeyUsePolicy → KeyUsePolicy → Bool
policy_eq no_pin no_pin = true
policy_eq no_pin tpm_pin = false
policy_eq tpm_pin no_pin = false
policy_eq tpm_pin tpm_pin = true

abbrev pub algorithm_eq : KeyAlgorithm → KeyAlgorithm → Bool
algorithm_eq ecdsa_nist_p256 ecdsa_nist_p256 = true
algorithm_eq ecdsa_nist_p256 ecdsa_nist_p384 = false
algorithm_eq ecdsa_nist_p384 ecdsa_nist_p256 = false
algorithm_eq ecdsa_nist_p384 ecdsa_nist_p384 = true

pub record KeySummary : Type 0 where
  pub id : KeyId
  pub name : Bytes
  pub algorithm : KeyAlgorithm
  pub use_policy : KeyUsePolicy
  pub public_key : Bytes

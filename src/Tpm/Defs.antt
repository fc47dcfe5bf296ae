-- ===== src/Tpm/Defs.antt =====
-- crates/keyvisor-tpm/src/lib.rs: the types of the TPM boundary.
use keyvisor.Prelude.{ℕ}
use keyvisor.Wire.Endian.{Bytes}
use keyvisor.Core.{KeyUsePolicy}

-- `none` is `TpmAuthorization::None`.
pub data TpmAuthorization : Type 0 where
  no_authorization : TpmAuthorization
  pin : Bytes → TpmAuthorization

pub record TpmObject : Type 0 where
  pub public : Bytes
  pub wrapped_private : Bytes
  pub parent_name : Bytes
  pub use_policy : KeyUsePolicy

pub record DictionaryAttackState : Type 0 where
  pub failed_tries : ℕ
  pub max_tries : ℕ
  pub recovery_time_seconds : ℕ
  pub lockout_recovery_seconds : ℕ

pub data TpmError : Type 0 where
  unavailable unsupported_algorithm invalid_authorization authorization_failed : TpmError
  dictionary_attack_lockout policy_failed invalid_object transport : TpmError

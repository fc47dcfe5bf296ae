-- ===== src/Tpm/Tss.antt =====
-- The calls of the TPM library `tss_esapi` that esapi.rs makes, as an interface, and its errors.
use keyvisor.Wire.Endian.{Bytes}
use keyvisor.Prelude.{ℕ, Bool, Option, none, some, List, Result}
use keyvisor.Tpm.Defs.{
  TpmError, transport, authorization_failed, dictionary_attack_lockout, policy_failed,
}
use keyvisor.Tpm.Template.{Public, EccCurve, HashingAlgorithm}

-- `Tss2ResponseCodeKind` as far as it is told apart.
pub data ResponseKind : Type 0 where
  auth_fail bad_auth lockout policy policy_fail other_response : ResponseKind

pub data TssError : Type 0 where
  response : Option ResponseKind → TssError
  wrapper : TssError

pub data Signature : Type 0 where
  ec_dsa_signature : Bytes → Bytes → Signature
  other_signature : Signature

pub data CapabilityData : Type 0 where
  ecc_curves : List EccCurve → CapabilityData
  other_capability : CapabilityData

pub data PropertyTag : Type 0 where
  lockout_counter max_auth_fail lockout_interval lockout_recovery : PropertyTag

abbrev pub Call : Type 0 → Type 0 → Type 0
Call S A = S → Result TssError A × S

-- A handle is its number. Commands take the session that authorizes and encrypts them first.
pub record Tss : Type 1 where
  pub State : Type 0
  pub auth_capacity : ℕ
  -- `Public::unmarshall`, `marshall`, and the sizes that `Private` and `Digest` take
  pub unmarshall : Bytes → Option Public
  pub marshall : Public → Result TssError Bytes
  pub fits_private : Bytes → Bool
  pub digest_of : Bytes → Result TssError (Unit {0})
  pub hashcheck_ticket : Result TssError (Unit {0})
  -- sessions and handles
  pub start_auth_session : ℕ → Option ℕ → Call State (Option ℕ)
  pub tr_sess_set_attributes : ℕ → Call State (Unit {0})
  pub flush_context : ℕ → Call State (Unit {0})
  pub tr_set_auth : ℕ → Bytes → Call State (Unit {0})
  pub tr_get_name : ℕ → Call State Bytes
  -- commands
  pub load : ℕ → ℕ → Bytes → Public → Call State ℕ
  pub create : ℕ → ℕ → Public → Bytes → Call State (Bytes × Public)
  pub sign : ℕ → ℕ → Bytes → HashingAlgorithm → Call State Signature
  pub get_capability : EccCurve → Call State CapabilityData
  pub get_tpm_property : PropertyTag → Call State (Option ℕ)

unfoldable pub map_tss_error : TssError → TpmError
map_tss_error (response none) = transport
map_tss_error (response (some auth_fail)) = authorization_failed
map_tss_error (response (some bad_auth)) = authorization_failed
map_tss_error (response (some lockout)) = dictionary_attack_lockout
map_tss_error (response (some policy)) = policy_failed
map_tss_error (response (some policy_fail)) = policy_failed
map_tss_error (response (some other_response)) = transport
map_tss_error wrapper = transport

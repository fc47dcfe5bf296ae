-- ===== src/Agent/Handle.antt =====
-- `AgentRuntime`: `handle`, `sign_with_key` and `record_history`.
use keyvisor.Files.Defs.{Files}
use keyvisor.Agent.Defs.{
  AgentError, tpm_unavailable, disconnected, unknown_identity, store_failed, signing_failed,
  protocol, unsupported_flags,
}
use keyvisor.Files.Paths.{FilePath}
use keyvisor.Wire.Endian.{Bytes}
use keyvisor.Prelude.{
  ℕ, Bool, true, not, ◌&&◌, Option, none, some, List, [], ◌∷◌, map, ◌==◌, if◌then◌else◌, bytes_eq,
  Result, ok, err, ◌>>=◌, ◌>>◌, fail_if, map_err,
}
use keyvisor.Store.Listing
use keyvisor.Store.Defs.{StoredKey, StoreError}
use keyvisor.History.Ops.{append}
use keyvisor.History.Defs.{HistoryEntry, HistoryOutcome, succeeded, failed}
use keyvisor.Core.{no_pin, tpm_pin, ecdsa_nist_p256, ecdsa_nist_p384, KeyAlgorithm, KeyUsePolicy}
use keyvisor.Protocol.Defs.{
  request_identities, sign, ProtocolError, AgentRequest, parse_request, ecdsa_signature_response,
  identities_response,
}
use keyvisor.Tpm.Defs.{pin, no_authorization, TpmAuthorization, TpmError}

-- What the handler calls outside this crate, and what differs from request to request.
pub record Services : Type 0 where
  -- `Sha256::digest` and `Sha384::digest`
  pub sha256 : Bytes → Bytes
  pub sha384 : Bytes → Bytes
  -- `EsapiTpm::connect_default` and `TpmSigner::sign`
  pub connects : Bool
  pub tpm_sign : StoredKey → Bytes → TpmAuthorization → Result TpmError Bytes
  -- `request_pin` for a key's name
  pub request_pin : Bytes → Result AgentError Bytes
  -- whether the client has hung up: at the start, before the TPM is used, and after
  pub gone_at_start : Bool
  pub gone_before_signing : Bool
  pub gone_after_signing : Bool
  pub now_seconds : ℕ
  pub process : ℕ

-- The store, the history and the TPM behind their mutexes, and the configuration.
pub record Runtime : Type 0 where
  pub store : FilePath
  pub history : FilePath
  pub history_enabled : Bool
  pub tpm_open : Bool
  pub files : Files

module _ (services : Services) where
  unfoldable pub digest : KeyAlgorithm → Bytes → Bytes
  digest ecdsa_nist_p256 signed = services.sha256 signed
  digest ecdsa_nist_p384 signed = services.sha384 signed

  -- The PIN of a key that needs one.
  unfoldable pub obtain_pin : KeyUsePolicy → Bytes → Result AgentError Bytes
  obtain_pin no_pin name = ok []
  obtain_pin tpm_pin name = services.request_pin name

  unfoldable pub authorization : KeyUsePolicy → Bytes → TpmAuthorization
  authorization no_pin value = no_authorization
  authorization tpm_pin value = pin value

  -- The TPM signs, and the result of a client that is gone is dropped.
  unfoldable pub make_signature : StoredKey → Bytes → Bytes → Result AgentError Bytes
  unfolding digest authorization
  make_signature key signed value = do
    signature ←
        map_err (λ e. signing_failed)
          (services.tpm_sign key (digest key.summary.algorithm signed)
            (authorization key.summary.use_policy value))
    fail_if services.gone_after_signing disconnected
    map_err protocol (ecdsa_signature_response key.summary.algorithm signature)

  -- From the TPM's mutex on: it is connected once.
  unfoldable pub sign_with_tpm :
      StoredKey → Bytes → Bytes → Runtime → Result AgentError Bytes × Runtime
  unfolding make_signature
  sign_with_tpm key signed value runtime =
      if not runtime.tpm_open && not services.connects
      then (err tpm_unavailable, runtime)
      else (make_signature key signed value, record runtime { tpm_open = true })

  unfoldable pub with_pin :
      StoredKey → Bytes → Runtime → Result AgentError Bytes → Result AgentError Bytes × Runtime
  unfolding sign_with_tpm
  with_pin key signed runtime (err e) = (err e, runtime)
  with_pin key signed runtime (ok value) =
      if services.gone_before_signing
      then (err disconnected, runtime)
      else sign_with_tpm key signed value runtime

  unfoldable pub sign_with_key : StoredKey → Bytes → Runtime → Result AgentError Bytes × Runtime
  unfolding with_pin obtain_pin
  sign_with_key key signed runtime =
      with_pin key signed runtime (obtain_pin key.summary.use_policy key.summary.name)

  unfoldable pub outcome_of : Result AgentError Bytes → HistoryOutcome
  outcome_of (ok response) = succeeded
  outcome_of (err e) = failed

  unfoldable pub entry_of : StoredKey → HistoryOutcome → HistoryEntry
  entry_of key outcome = record {
    timestamp_seconds = services.now_seconds;
    key_id = key.summary.id;
    key_name = key.summary.name;
    use_policy = key.summary.use_policy;
    outcome = outcome;
  }

  -- An entry that cannot be recorded is only reported.
  unfoldable pub record_history : StoredKey → HistoryOutcome → Runtime → Runtime
  unfolding entry_of
  record_history key outcome runtime =
      if runtime.history_enabled
      then record runtime {
        files = (append runtime.history services.process (entry_of key outcome) runtime.files).1;
      }
      else runtime

  -- `find(|key| key.summary.public_key == public_key)`
  unfoldable pub find_key : Bytes → List StoredKey → Option StoredKey
  find_key public_key [] = none
  find_key public_key (key ∷ keys) =
      if bytes_eq key.summary.public_key public_key then some key else find_key public_key keys

  unfoldable pub sign_found : Bytes → Runtime → Option StoredKey → Result AgentError Bytes × Runtime
  unfolding sign_with_key record_history outcome_of
  sign_found signed runtime none = (err unknown_identity, runtime)
  sign_found signed runtime (some key) =
      let r = sign_with_key key signed runtime in (r.0, record_history key (outcome_of r.0) r.1)

  unfoldable pub sign_listed :
      Bytes
      → Bytes
      → Runtime
      → Result StoreError (List StoredKey)
      → Result AgentError Bytes × Runtime
  unfolding sign_found find_key
  sign_listed public_key signed runtime (err e) = (err store_failed, runtime)
  sign_listed public_key signed runtime (ok keys) =
      sign_found signed runtime (find_key public_key keys)

  unfoldable pub identities_listed : Result StoreError (List StoredKey) → Result AgentError Bytes
  identities_listed (err e) = err store_failed
  identities_listed (ok keys) =
      map_err protocol (identities_response (map (λ key. key.summary) keys))

  -- The arms of the `match`.
  unfoldable pub handle_request :
      Runtime → Result ProtocolError AgentRequest → Result AgentError Bytes × Runtime
  unfolding sign_listed identities_listed
  handle_request runtime (err e) = (err (protocol e), runtime)
  handle_request runtime (ok request_identities) =
      let l = Listing.list runtime.store runtime.files in
      (identities_listed l.0, record runtime { files = l.1 })
  handle_request runtime (ok (sign public_key signed flags)) =
      if not (flags == 0)
      then (err unsupported_flags, runtime)
      else let l = Listing.list runtime.store runtime.files in
        sign_listed public_key signed (record runtime { files = l.1 }) l.0

  unfoldable pub handle : Bytes → Runtime → Result AgentError Bytes × Runtime
  unfolding handle_request
  handle packet runtime =
      if services.gone_at_start
      then (err disconnected, runtime)
      else handle_request runtime (parse_request packet)

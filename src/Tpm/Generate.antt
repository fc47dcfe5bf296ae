-- ===== src/Tpm/Generate.antt =====
-- `EsapiTpm::generate`: a key is created, checked, loaded for its name and released.
use keyvisor.Wire.Hex.{hex}
use keyvisor.Tpm.Codec.{authorization_value}
use keyvisor.Tpm.Defs.{TpmError, TpmAuthorization, TpmObject}
use keyvisor.Tpm.Template.{Public, validate_public, ecc_curve, create_public}
use keyvisor.Core.{KeyAlgorithm, KeyUsePolicy, KeySummary}
use keyvisor.Tpm.Esapi.{from_tss, with_encrypted_session, check_curves, ssh_public_key}
use keyvisor.Wire.Endian.{Bytes}
use keyvisor.Tpm.Tss.{Tss, map_tss_error}
use keyvisor.Prelude.{ℕ, none, Result, ok, ◌>>◌, map_err, then_do}

module _ (t : Tss) (parent : ℕ) where
  -- The key is loaded only for its name, and released.
  unfoldable pub created_name : Bytes → Public → t.State → Result TpmError Bytes × t.State
  unfolding from_tss with_encrypted_session
  created_name out_private out_public s =
      then_do
        (from_tss t (
          with_encrypted_session t parent none
            (λ session. t.load session parent out_private out_public) s))
        λ child s₁. then_do (from_tss t (t.tr_get_name child s₁)) λ child_name s₂.
          then_do (from_tss t (t.flush_context child s₂)) λ _ s₃. (ok child_name, s₃)

-- The library, the storage parent and its name: the fields of `EsapiTpm`.
module _ (t : Tss) (parent : ℕ) (parent_name : Bytes) where
  -- From the answer of `create` on.
  unfoldable pub finish_key :
      Bytes
      → KeyAlgorithm
      → KeyUsePolicy
      → Bytes × Public
      → t.State
      → Result TpmError (KeySummary × TpmObject) × t.State
  unfolding created_name
  finish_key name algorithm use_policy (out_private, out_public) s =
      then_do
        (validate_public out_public algorithm use_policy >> ssh_public_key out_public algorithm, s)
        λ public_key s₁. then_do (created_name t parent out_private out_public s₁) λ child_name s₂.
          then_do (map_err map_tss_error (t.marshall out_public), s₂)
            λ marshalled s₃. (
              ok (
                record {
                  id = record { value = hex child_name };
                  name = name;
                  algorithm = algorithm;
                  use_policy = use_policy;
                  public_key = public_key;
                },
                record {
                  public = marshalled;
                  wrapped_private = out_private;
                  parent_name = parent_name;
                  use_policy = use_policy;
                },
              ),
              s₃,
            )

  unfoldable pub generate :
      Bytes
      → KeyAlgorithm
      → TpmAuthorization
      → t.State
      → Result TpmError (KeySummary × TpmObject) × t.State
  unfolding from_tss with_encrypted_session finish_key check_curves
  generate name algorithm authorization s =
      then_do (from_tss t (t.get_capability (ecc_curve algorithm) s)) λ capabilities s₁.
        then_do (check_curves algorithm capabilities, s₁)
          λ _ s₂.
            then_do (authorization_value t.auth_capacity authorization, s₂)
              λ (auth, use_policy) s₃.
                then_do
                  (from_tss t (
                    with_encrypted_session t parent none
                      (λ session. t.create session parent (create_public algorithm use_policy) auth)
                      s₃))
                  λ created s₄. finish_key name algorithm use_policy created s₄

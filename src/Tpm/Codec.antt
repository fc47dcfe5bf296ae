-- ===== src/Tpm/Codec.antt =====
-- crates/keyvisor-tpm/src/esapi.rs: the encodings and the checks around the TPM commands.
use keyvisor.Prelude.{
  ℕ, ◌-◌, [], ◌∷◌, ◌++◌, ltb, leb, if◌then◌else◌, length, replicate, Result, ok, err, ◌>>=◌,
}
use keyvisor.Wire.Endian.{Bytes}
use keyvisor.Core.{KeyAlgorithm, KeyUsePolicy, ecdsa_component_size, no_pin, tpm_pin}
use keyvisor.Tpm.Defs.{
  TpmAuthorization, no_authorization, pin, TpmError, invalid_object, invalid_authorization,
}

-- `output.resize(…, 0)` and the value: padded with zeros on the left to the width.
unfoldable pub append_padded : Bytes → Bytes → ℕ → Result TpmError Bytes
append_padded output value width =
    if ltb width (length value)
    then err invalid_object
    else ok ((output ++ replicate (width - length value) 0) ++ value)

-- The `Auth` buffer of the TPM library holds at most so many bytes.
module _ (auth_capacity : ℕ) where
  -- The authorization value of a command and the policy that it stands for.
  unfoldable pub authorization_value : TpmAuthorization → Result TpmError (Bytes × KeyUsePolicy)
  authorization_value no_authorization = ok ([], no_pin)
  authorization_value (pin []) = err invalid_authorization
  authorization_value (pin (b ∷ bs)) =
      if leb (length (b ∷ bs)) auth_capacity
      then ok (b ∷ bs, tpm_pin)
      else err invalid_authorization

-- The two coordinates behind the byte for an uncompressed point.
unfoldable pub point_bytes : KeyAlgorithm → Bytes → Bytes → Result TpmError Bytes
point_bytes algorithm x y = do
  point₁ ← append_padded (4 ∷ []) x (ecdsa_component_size algorithm)
  append_padded point₁ y (ecdsa_component_size algorithm)

-- The signature that `sign` returns: `r` and `s`, each as wide as the curve's scalars.
unfoldable pub raw_signature : KeyAlgorithm → Bytes → Bytes → Result TpmError Bytes
unfolding append_padded
raw_signature algorithm r s = do
  raw ← append_padded [] r (ecdsa_component_size algorithm)
  append_padded raw s (ecdsa_component_size algorithm)

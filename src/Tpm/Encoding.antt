-- ===== src/Tpm/Encoding.antt =====
-- The signature of `sign` in esapi.rs, encoded by the agent.
use keyvisor.Protocol.Mpints.{read_mpint, mpint}
use keyvisor.Protocol.Signatures.{sign_response, ecdsa_signature_response_lem}
use keyvisor.Protocol.Defs.{ecdsa_signature_response}
use keyvisor.Core.{KeyAlgorithm, ecdsa_component_size}
use keyvisor.Tpm.Codec.{append_padded, raw_signature}
use keyvisor.Wire.Endian.{Bytes, from_be_bytes, AreBytes, from_be_bytes_padded}
use keyvisor.Prelude.{
  ℕ, zero, suc, ◌-◌, ◌≤◌, ◌≡◌, refl, ap, ◌∙◌, some, [], ◌++◌, append_assoc, arith, length,
  replicate, length-append, length-replicate, ok, bind-eq,
}

abbrev pub padded : ℕ → Bytes → Bytes
padded width value = replicate (width - length value) 0 ++ value

from_be_bytes_zeros :
    (n : ℕ) (value : Bytes) → from_be_bytes (replicate n 0 ++ value) ≡ from_be_bytes value
from_be_bytes_zeros zero value = refl
from_be_bytes_zeros (suc n) value =
    from_be_bytes_padded (replicate n 0 ++ value) ∙ from_be_bytes_zeros n value

zeros-AreBytes : (n : ℕ) (value : Bytes) → AreBytes value → AreBytes (replicate n 0 ++ value)
zeros-AreBytes zero value h = h
zeros-AreBytes (suc n) value h = (omega arith, zeros-AreBytes n value h)

length-padded :
    (width : ℕ) (value : Bytes) → length value ≤ width → length (padded width value) ≡ width
length-padded width value h = omega (
  arith,
  length-append (replicate (width - length value) 0) value,
  length-replicate {A = ℕ} (width - length value) 0,
)

append_padded_lem :
    (output value : Bytes) (width : ℕ)
    → length value ≤ width
    → append_padded output value width ≡ ok (output ++ padded width value)
unfolding append_padded
append_padded_lem output value width h =
    rw (append_assoc output (replicate (width - length value) 0) value) (ground arith)

-- Scalars that are at most as wide as the curve's, as the TPM returns them, without leading zeros
-- or with, become a signature that the agent always encodes, and the client reads the scalars'
-- numbers.
pub raw_signature-ecdsa_signature_response :
    (algorithm : KeyAlgorithm) (r s : Bytes)
    → AreBytes r
    → AreBytes s
    → length r ≤ ecdsa_component_size algorithm
    → length s ≤ ecdsa_component_size algorithm
    → let width = ecdsa_component_size algorithm in
      (raw : Bytes) × (raw_signature algorithm r s ≡ ok raw)
      × (ecdsa_signature_response algorithm raw
          ≡ ok (sign_response algorithm (padded width r) (padded width s)))
      × (read_mpint (mpint (padded width r)) ≡ some (from_be_bytes r))
      × (read_mpint (mpint (padded width s)) ≡ some (from_be_bytes s))
unfolding raw_signature
raw_signature-ecdsa_signature_response algorithm r s br bs hr hs =
    let width = ecdsa_component_size algorithm in
    let (sent, read-r, read-s) =
      ecdsa_signature_response_lem algorithm (padded width r) (padded width s)
        (zeros-AreBytes (width - length r) r br) (zeros-AreBytes (width - length s) s bs)
        (length-padded width r hr) (length-padded width s hs) in
    (
      padded width r ++ padded width s,
      bind-eq _ (append_padded_lem [] r width hr) (append_padded_lem (padded width r) s width hs),
      sent,
      read-r ∙ ap some (from_be_bytes_zeros (width - length r) r),
      read-s ∙ ap some (from_be_bytes_zeros (width - length s) s),
    )

-- ===== src/Examples/Encodings.antt =====
-- The protocol, the TPM's encodings and the names of files at concrete inputs.
use keyvisor.Tpm.Validated.{IsSigningKey, validate_public_iff}
use keyvisor.Protocol.Mpints.{read_mpint, mpint}
use keyvisor.Wire.Strings.{string}
use keyvisor.Wire.Utf8.{codes}
use keyvisor.Wire.Endian.{Bytes, from_be_bytes}
use keyvisor.Prelude.{◌≤◌, ◌≡◌, ◌↔◌, some, [], ◌∷◌, map, arith, length, replicate, ok}
use keyvisor.Core.{KeySummary, no_pin, tpm_pin, ecdsa_nist_p256, ecdsa_component_size}
use keyvisor.Protocol.Defs.{
  sign, parse_request, max_packet_length, identities_response, take_string,
  ecdsa_signature_response,
}
use keyvisor.Protocol.Requests.{packet_of, FitsWord, parse_request-exact}
use keyvisor.Protocol.Identities.{
  answer, identity, read_answer, identities_response_lem, read-identities_response,
}
use keyvisor.Protocol.Signatures.{sign_response}
use keyvisor.Tpm.Template.{create_public, validate_public}
use keyvisor.Tpm.Encoding.{padded, raw_signature-ecdsa_signature_response}
use keyvisor.Tpm.Codec.{raw_signature}

abbrev packet : Bytes
packet = 13 ∷ 0 ∷ 0 ∷ 0 ∷ 1 ∷ 7 ∷ 0 ∷ 0 ∷ 0 ∷ 1 ∷ 9 ∷ 0 ∷ 0 ∷ 0 ∷ 0 ∷ []

parse_request-exact_example : (parse_request packet ≡ ok (sign (7 ∷ []) (9 ∷ []) 0)) ↔ (
    (packet ≡ packet_of (sign (7 ∷ []) (9 ∷ []) 0))
    × (length packet ≤ max_packet_length)
    × FitsWord (sign (7 ∷ []) (9 ∷ []) 0))
parse_request-exact_example = parse_request-exact packet (sign (7 ∷ []) (9 ∷ []) 0) (omega arith)

abbrev summary : KeySummary
summary = record {
  id = record { value = codes "ab" };
  name = codes "laptop";
  algorithm = ecdsa_nist_p256;
  use_policy = no_pin;
  public_key = 1 ∷ 2 ∷ [];
}

identities_sent : identities_response (summary ∷ []) ≡ ok (string (answer (summary ∷ [])))
unfolding answer keyvisor.Wire.Endian.to_be_bytes keyvisor.Protocol.Identities.entries
identities_sent = identities_response_lem (summary ∷ [])

read-identities_response_example :
    (take_string (string (answer (summary ∷ []))) ≡ ok (answer (summary ∷ []), []))
    × (read_answer (answer (summary ∷ [])) ≡ ok (map identity (summary ∷ [])))
read-identities_response_example =
    read-identities_response (summary ∷ []) (string (answer (summary ∷ []))) identities_sent

abbrev scalar : Bytes
scalar = replicate 32 200

raw_signature-ecdsa_signature_response_example :
    (raw : Bytes) × (raw_signature ecdsa_nist_p256 (1 ∷ []) scalar ≡ ok raw)
    × (ecdsa_signature_response ecdsa_nist_p256 raw
        ≡ ok (
            sign_response ecdsa_nist_p256
              (padded (ecdsa_component_size ecdsa_nist_p256) (1 ∷ []))
              (padded (ecdsa_component_size ecdsa_nist_p256) scalar)))
    × (read_mpint (mpint (padded (ecdsa_component_size ecdsa_nist_p256) (1 ∷ [])))
        ≡ some (from_be_bytes (1 ∷ [])))
    × (read_mpint (mpint (padded (ecdsa_component_size ecdsa_nist_p256) scalar))
        ≡ some (from_be_bytes scalar))
raw_signature-ecdsa_signature_response_example =
    raw_signature-ecdsa_signature_response ecdsa_nist_p256 (1 ∷ []) scalar (omega arith)
      (omega arith) (unfold ecdsa_component_size in omega arith)
      (unfold ecdsa_component_size in omega arith)

validate_public_iff_example :
    ((validate_public (create_public ecdsa_nist_p256 tpm_pin) ecdsa_nist_p256 tpm_pin ≡ ok tt)
      ↔ IsSigningKey (create_public ecdsa_nist_p256 tpm_pin) ecdsa_nist_p256 tpm_pin)
    × (validate_public (create_public ecdsa_nist_p256 tpm_pin) ecdsa_nist_p256 tpm_pin ≡ ok tt)
validate_public_iff_example =
    validate_public_iff (create_public ecdsa_nist_p256 tpm_pin) ecdsa_nist_p256 tpm_pin

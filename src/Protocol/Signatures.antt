-- ===== src/Protocol/Signatures.antt =====
-- `ecdsa_signature_response` on the signatures of the TPM.
use keyvisor.Wire.Strings.{string, length-string}
use keyvisor.Prelude.{
  ℕ, ◌+◌, ◌*◌, ◌≤◌, ◌≡◌, ◌≢◌, refl, [], ◌∷◌, ◌++◌, length, arith, some, ok, err, bind-eq, ◌∙◌,
  if◌then◌else◌, take-append, length-drop, length-append, ltb, drop-append,
}
use keyvisor.Wire.Endian.{Bytes, AreBytes, from_be_bytes}
use keyvisor.Core.{
  KeyAlgorithm, ecdsa_nist_p256, ecdsa_nist_p384, ecdsa_component_size, ssh_key_type,
}
use keyvisor.Protocol.Defs.{
  ecdsa_signature_response, split_signature, checked_frame, push_string, push_mpint,
  invalid_signature, max_packet_length, packet_too_large, frame,
}
use keyvisor.Protocol.Mpints.{
  mpint, push_string_lem, push_mpint_lem, length-mpint, read_mpint, read_mpint-mpint,
}

pub push_string_fits :
    (output value : Bytes)
    → length output + 4 + length value ≤ max_packet_length
    → push_string output value ≡ ok (output ++ string value)
push_string_fits output value h = ground (arith, push_string_lem output value)

push_mpint_fits :
    (output value : Bytes)
    → length output + 5 + length value ≤ max_packet_length
    → push_mpint output value ≡ ok (output ++ string (mpint value))
push_mpint_fits output value h =
    push_mpint_lem output value
    ∙ push_string_fits output (mpint value) (omega (arith, length-mpint value))

pub checked_frame_lem :
    (payload : Bytes)
    → checked_frame payload ≡ (
        if ltb max_packet_length (length payload)
        then err packet_too_large
        else ok (string payload))
unfolding checked_frame frame
checked_frame_lem payload = ground arith

pub checked_frame_fits :
    (payload : Bytes)
    → length payload ≤ max_packet_length
    → checked_frame payload ≡ ok (string payload)
checked_frame_fits payload h = ground (arith, checked_frame_lem payload)

split_signature-append :
    (width : ℕ) (r s : Bytes)
    → length r ≡ width
    → length s ≡ width
    → split_signature width (r ++ s) ≡ ok (r, s)
unfolding split_signature
split_signature-append width r s hr hs =
    rw (← hr) (rw (take-append r s, drop-append r s) (ground (arith, length-append {0} r s)))

split_signature_wrong :
    (width : ℕ) (signature : Bytes)
    → length signature ≢ 2 * width
    → split_signature width signature ≡ err invalid_signature
unfolding split_signature
split_signature_wrong width signature h = ground (arith, length-drop width signature)

-- The response that a client expects for the scalars `r` and `s`.
unfoldable pub sign_response : KeyAlgorithm → Bytes → Bytes → Bytes
sign_response algorithm r s =
    string (
      14
      ∷ string (string (ssh_key_type algorithm) ++ string (string (mpint r) ++ string (mpint s))))

key_type_size : (algorithm : KeyAlgorithm) → length (ssh_key_type algorithm) ≡ 19
unfolding ssh_key_type
key_type_size ecdsa_nist_p256 = refl
key_type_size ecdsa_nist_p384 = refl

width_bound : (algorithm : KeyAlgorithm) → ecdsa_component_size algorithm ≤ 48
unfolding ecdsa_component_size
width_bound ecdsa_nist_p256 = omega arith
width_bound ecdsa_nist_p384 = omega arith

module _ (algorithm : KeyAlgorithm) (r s : Bytes) (hr : length r ≤ 48) (hs : length s ≤ 48) where
  scalars_size : length (string (mpint r) ++ string (mpint s)) ≤ 106
  scalars_size = omega (
    arith,
    length-append {0} (string (mpint r)) (string (mpint s)),
    length-string (mpint r),
    length-string (mpint s),
    length-mpint r,
    length-mpint s,
  )

  blob_size :
      length (string (ssh_key_type algorithm) ++ string (string (mpint r) ++ string (mpint s)))
      ≤ 133
  blob_size = omega (
    arith,
    length-append {0} (string (ssh_key_type algorithm))
        (string (string (mpint r) ++ string (mpint s))),
    length-string (ssh_key_type algorithm),
    length-string (string (mpint r) ++ string (mpint s)),
    scalars_size,
    key_type_size algorithm,
  )

response_fits :
    (algorithm : KeyAlgorithm) (r s : Bytes)
    → length r ≡ ecdsa_component_size algorithm
    → length s ≡ ecdsa_component_size algorithm
    → ecdsa_signature_response algorithm (r ++ s) ≡ ok (sign_response algorithm r s)
unfolding ecdsa_signature_response sign_response
response_fits algorithm r s hr hs =
    let hr' : length r ≤ 48 = omega (arith, width_bound algorithm) in
    let hs' : length s ≤ 48 = omega (arith, width_bound algorithm) in
    let scalars = string (mpint r) ++ string (mpint s) in
    let key_type = string (ssh_key_type algorithm) in
    let first = length-string (mpint r) in
    bind-eq _ (split_signature-append (ecdsa_component_size algorithm) r s hr hs) (
      bind-eq _ (push_mpint_fits [] r (omega arith)) (
        bind-eq _ (push_mpint_fits (string (mpint r)) s (omega (arith, first, length-mpint r))) (
          bind-eq _
            (push_string_fits [] (ssh_key_type algorithm) (omega (arith, key_type_size algorithm)))
            (bind-eq _
              (push_string_fits key_type scalars (
                omega (
                  arith,
                  length-string (ssh_key_type algorithm),
                  key_type_size algorithm,
                  scalars_size algorithm r s hr' hs',
                )))
              (bind-eq _
                (push_string_fits (14 ∷ []) (key_type ++ string scalars)
                  (omega (arith, blob_size algorithm r s hr' hs')))
                (checked_frame_fits (14 ∷ string (key_type ++ string scalars)) (
                  omega (
                    arith,
                    blob_size algorithm r s hr' hs',
                    length-string (key_type ++ string scalars),
                  ))))))))

-- A signature of two scalars of the algorithm's width is always encoded: as one frame, with the
-- key type and two canonical mpints that read back as the scalars' numbers.
pub ecdsa_signature_response_lem :
    (algorithm : KeyAlgorithm) (r s : Bytes)
    → AreBytes r
    → AreBytes s
    → length r ≡ ecdsa_component_size algorithm
    → length s ≡ ecdsa_component_size algorithm
    → (ecdsa_signature_response algorithm (r ++ s) ≡ ok (sign_response algorithm r s))
      × (read_mpint (mpint r) ≡ some (from_be_bytes r))
      × (read_mpint (mpint s) ≡ some (from_be_bytes s))
ecdsa_signature_response_lem algorithm r s br bs hr hs =
    (response_fits algorithm r s hr hs, read_mpint-mpint r br, read_mpint-mpint s bs)

-- A signature of any other length is refused.
pub ecdsa_signature_response_wrong :
    (algorithm : KeyAlgorithm) (signature : Bytes)
    → length signature ≢ 2 * ecdsa_component_size algorithm
    → ecdsa_signature_response algorithm signature ≡ err invalid_signature
unfolding ecdsa_signature_response
ecdsa_signature_response_wrong algorithm signature h =
    rw (split_signature_wrong (ecdsa_component_size algorithm) signature h)

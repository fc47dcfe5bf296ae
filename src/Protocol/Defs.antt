-- ===== src/Protocol/Defs.antt =====
-- The data, the parser and the encoders of protocol.rs.
use Prim.Native.Nat.{bit_and}
use native.Mathlib.Decide.{dec_lt}
use mathlib.Core.Logic.{dite}
use keyvisor.Prelude.{
  ℕ, ◌*◌, ◌^◌, ◌<◌, Bool, false, not, ◌==◌, List, [], ◌∷◌, ◌++◌, length, is_empty, ltb, leb,
  if◌then◌else◌, Result, ok, err, ◌>>=◌, ◌>>◌, fail_if, arith, take, drop,
}
use keyvisor.Wire.Endian.{Bytes, to_be_bytes}
use keyvisor.Wire.Cursor.{split_at, read_be}
use keyvisor.Core.{KeyAlgorithm, KeySummary, ecdsa_component_size, ssh_key_type}

abbrev pub max_packet_length : ℕ
max_packet_length = 256 * 1024

abbrev pub ssh_agent_failure : ℕ
ssh_agent_failure = 5

abbrev pub ssh2_agentc_request_identities : ℕ
ssh2_agentc_request_identities = 11

abbrev pub ssh2_agent_identities_answer : ℕ
ssh2_agent_identities_answer = 12

abbrev pub ssh2_agentc_sign_request : ℕ
ssh2_agentc_sign_request = 13

abbrev pub ssh2_agent_sign_response : ℕ
ssh2_agent_sign_response = 14

pub data AgentRequest : Type 0 where
  request_identities : AgentRequest
  sign : Bytes → Bytes → ℕ → AgentRequest

pub data ProtocolError : Type 0 where
  empty_packet packet_too_large truncated trailing_data unsupported_request invalid_signature :
      ProtocolError

-- `&mut input` is a remaining slice that comes back beside the value.
unfoldable pub take_bytes : Bytes → ℕ → Result ProtocolError (Bytes × Bytes)
take_bytes input n = split_at truncated input n

unfoldable pub take_u32 : Bytes → Result ProtocolError (ℕ × Bytes)
take_u32 input = read_be truncated 4 input

unfoldable pub take_string : Bytes → Result ProtocolError (Bytes × Bytes)
take_string input = do (n, rest) ← take_u32 input; take_bytes rest n

unfoldable pub ensure_empty : Bytes → Result ProtocolError (Unit {0})
ensure_empty input = if is_empty input then ok tt else err trailing_data

unfoldable pub parse_identities : Bytes → Result ProtocolError AgentRequest
parse_identities input = do ensure_empty input; ok request_identities

unfoldable pub parse_sign : Bytes → Result ProtocolError AgentRequest
parse_sign input = do
  (public_key, input₁) ← take_string input
  (signed, input₂) ← take_string input₁
  (flags, input₃) ← take_u32 input₂
  ensure_empty input₃
  ok (sign public_key signed flags)

-- The arms of `match *message_type`.
unfoldable pub parse_message : ℕ → Bytes → Result ProtocolError AgentRequest
parse_message message_type input =
    if message_type == ssh2_agentc_request_identities
    then parse_identities input
    else if message_type == ssh2_agentc_sign_request
    then parse_sign input
    else err unsupported_request

unfoldable pub parse_request : Bytes → Result ProtocolError AgentRequest
unfolding parse_message parse_identities parse_sign
parse_request [] = err empty_packet
parse_request (message_type ∷ input) =
    if ltb max_packet_length (length (message_type ∷ input))
    then err packet_too_large
    else parse_message message_type input

-- `frame` panics on a payload of 2^32 bytes or more; its callers prove that theirs is shorter.
unfoldable pub frame : (payload : Bytes) → length payload < 2 ^ 32 → Bytes
frame payload _ = to_be_bytes 4 (length payload) ++ payload

unfoldable pub checked_frame : Bytes → Result ProtocolError Bytes
checked_frame payload =
    dite (dec_lt max_packet_length (length payload)) (λ _. err packet_too_large)
      (λ h. ok (frame payload (omega arith)))

unfoldable pub failure_response : Bytes
failure_response = frame (ssh_agent_failure ∷ []) (omega arith)

-- `output` is the vector that grows; the bound is on all of it.
unfoldable pub push_string : Bytes → Bytes → Result ProtocolError Bytes
push_string output value =
    let output' = output ++ (to_be_bytes 4 (length value) ++ value) in
    if leb (2 ^ 32) (length value)
    then err packet_too_large
    else if ltb max_packet_length (length output')
    then err packet_too_large
    else ok output'

-- `value[first..]` for the first byte that is not zero, or nothing.
unfoldable pub strip_zeros : Bytes → Bytes
strip_zeros [] = []
strip_zeros (b ∷ bs) = if b == 0 then strip_zeros bs else b ∷ bs

-- `value.first().is_some_and(|byte| byte & 0x80 != 0)`
unfoldable pub first_is_high : Bytes → Bool
first_is_high [] = false
first_is_high (b ∷ bs) = not (bit_and b 0x80 == 0)

unfoldable pub push_mpint : Bytes → Bytes → Result ProtocolError Bytes
unfolding strip_zeros first_is_high
push_mpint output value =
    let value' = strip_zeros value in
    if first_is_high value' then push_string output (0 ∷ value') else push_string output value'

unfoldable pub push_identities : Bytes → List KeySummary → Result ProtocolError Bytes
push_identities payload [] = ok payload
push_identities payload (key ∷ keys) = do
  payload₁ ← push_string payload key.public_key
  payload₂ ← push_string payload₁ key.name
  push_identities payload₂ keys

unfoldable pub identities_response : List KeySummary → Result ProtocolError Bytes
unfolding push_identities
identities_response keys = do
  fail_if (leb (2 ^ 32) (length keys)) packet_too_large
  payload ← push_identities (ssh2_agent_identities_answer ∷ to_be_bytes 4 (length keys)) keys
  checked_frame payload

-- `split_at_checked` and the filter on the second half.
unfoldable pub split_signature : ℕ → Bytes → Result ProtocolError (Bytes × Bytes)
split_signature width signature =
    if ltb (length signature) width
    then err invalid_signature
    else if length (drop width signature) == width
    then ok (take width signature, drop width signature)
    else err invalid_signature

unfoldable pub ecdsa_signature_response : KeyAlgorithm → Bytes → Result ProtocolError Bytes
unfolding split_signature
ecdsa_signature_response algorithm signature = do
  (r, s) ← split_signature (ecdsa_component_size algorithm) signature
  ecdsa₁ ← push_mpint [] r
  ecdsa ← push_mpint ecdsa₁ s
  blob₁ ← push_string [] (ssh_key_type algorithm)
  blob ← push_string blob₁ ecdsa
  payload ← push_string (ssh2_agent_sign_response ∷ []) blob
  checked_frame payload

-- ===== src/Protocol/Identities.antt =====
-- `identities_response`: the exact bytes, the bound, and what a client reads back.
use keyvisor.Wire.Strings.{string, length-string}
use keyvisor.Protocol.Signatures.{checked_frame_lem}
use keyvisor.Prelude.{
  ℕ, zero, suc, ◌+◌, ◌*◌, ◌^◌, ◌≤◌, ◌<◌, ◌≡◌, refl, List, [], ◌∷◌, ◌++◌, map, append_assoc,
  append-nil, arith, ltb, ◌==◌, if◌then◌else◌, length, length-append, Result, ok, err, ◌>>=◌, ◌>>◌,
  bind-eq,
}
use keyvisor.Wire.Endian.{Bytes, to_be_bytes, length-to_be_bytes}
use keyvisor.Core.{KeySummary}
use keyvisor.Protocol.Defs.{
  push_identities, packet_too_large, max_packet_length, identities_response, ProtocolError,
  empty_packet, take_string, take_u32, ensure_empty, ssh2_agent_identities_answer,
  unsupported_request,
}
use keyvisor.Protocol.Strings.{take_string_all, take_string-append, take_u32-append}
use keyvisor.Protocol.Mpints.{push_string_lem}

-- The public key and the comment of each identity, in order.
unfoldable pub entries : List KeySummary → Bytes
entries [] = []
entries (key ∷ keys) = string key.public_key ++ (string key.name ++ entries keys)

-- The payload of the answer: the type, the number of identities, and the identities.
unfoldable pub answer : List KeySummary → Bytes
answer keys = 12 ∷ (to_be_bytes 4 (length keys) ++ entries keys)

length-entries : (keys : List KeySummary) → 8 * length keys ≤ length (entries keys)
unfolding entries
length-entries [] = omega arith
length-entries (key ∷ keys) = omega (
  arith,
  length-append {0} (string key.public_key) (string key.name ++ entries keys),
  length-append {0} (string key.name) (entries keys),
  length-string key.public_key,
  length-string key.name,
  length-entries keys,
)

push_two :
    (payload : Bytes) (key : KeySummary) (keys : List KeySummary)
    → push_identities payload (key ∷ keys) ≡ (
        if ltb max_packet_length (length payload + 8 + length key.public_key + length key.name)
        then err packet_too_large
        else push_identities (payload ++ (string key.public_key ++ string key.name)) keys)
unfolding push_identities
push_two payload key keys = ground (
  arith,
  push_string_lem payload key.public_key,
  push_string_lem (payload ++ string key.public_key) key.name,
  length-append {0} payload (string key.public_key),
  length-string key.public_key,
  append_assoc payload (string key.public_key) (string key.name),
)

push_identities_lem :
    (keys : List KeySummary) (payload : Bytes)
    → length payload ≤ max_packet_length
    → push_identities payload keys ≡ (
        if ltb max_packet_length (length payload + length (entries keys))
        then err packet_too_large
        else ok (payload ++ entries keys))
unfolding entries
push_identities_lem [] payload h = unfold push_identities in rw (append-nil payload) (ground arith)
push_identities_lem (key ∷ keys) payload h =
    let two = string key.public_key ++ string key.name in
    ground (
      arith,
      push_two payload key keys,
      push_identities_lem keys (payload ++ two),
      length-append {0} payload two,
      length-append {0} (string key.public_key) (string key.name),
      length-append {0} (string key.public_key) (string key.name ++ entries keys),
      length-append {0} (string key.name) (entries keys),
      length-string key.public_key,
      length-string key.name,
      append_assoc payload two (entries keys),
      append_assoc (string key.public_key) (string key.name) (entries keys),
    )

-- The answer is one frame around the identities in order. It is refused exactly when its payload
-- is longer than the packet bound, and no key is dropped or cut.
pub identities_response_lem :
    (keys : List KeySummary)
    → identities_response keys ≡ (
        if ltb max_packet_length (length (answer keys))
        then err packet_too_large
        else ok (string (answer keys)))
unfolding identities_response answer
identities_response_lem keys =
    let head = 12 ∷ to_be_bytes 4 (length keys) in
    ground (
      arith,
      push_identities_lem keys head,
      checked_frame_lem (head ++ entries keys),
      length-to_be_bytes 4 (length keys),
      length-append {0} head (entries keys),
      length-entries keys,
    )

-- A client's reader of a payload: its type, the number, and so many pairs of strings.
read_entries : ℕ → Bytes → Result ProtocolError (List (Bytes × Bytes) × Bytes)
read_entries zero input = ok ([], input)
read_entries (suc n) input = do
  (public_key, input₁) ← take_string input
  (comment, input₂) ← take_string input₁
  (others, input₃) ← read_entries n input₂
  ok ((public_key, comment) ∷ others, input₃)

read_counted : Bytes → Result ProtocolError (List (Bytes × Bytes))
read_counted input = do
  (n, input₁) ← take_u32 input
  (identities, input₂) ← read_entries n input₁
  ensure_empty input₂
  ok identities

unfoldable pub read_answer : Bytes → Result ProtocolError (List (Bytes × Bytes))
unfolding read_counted read_entries
read_answer [] = err empty_packet
read_answer (kind ∷ input) =
    if kind == ssh2_agent_identities_answer then read_counted input else err unsupported_request

abbrev pub identity : KeySummary → Bytes × Bytes
identity key = (key.public_key, key.name)

read_entries-entries :
    (keys : List KeySummary)
    → length (entries keys) < 2 ^ 32
    → read_entries (length keys) (entries keys) ≡ ok (map identity keys, [])
unfolding read_entries entries
read_entries-entries [] h = refl
read_entries-entries (key ∷ keys) h =
    let comment = string key.name ++ entries keys in
    let e₁ = length-append {0} (string key.public_key) comment in
    let e₂ = length-append {0} (string key.name) (entries keys) in
    let e₃ = length-string key.public_key in
    let e₄ = length-string key.name in
    bind-eq _ (take_string-append key.public_key comment (omega arith)) (
      bind-eq _ (take_string-append key.name (entries keys) (omega arith))
        (bind-eq _ (read_entries-entries keys (omega arith)) refl))

read_answer-answer :
    (keys : List KeySummary)
    → length (answer keys) ≤ max_packet_length
    → read_answer (answer keys) ≡ ok (map identity keys)
unfolding read_answer answer ensure_empty
read_answer-answer keys h =
    let count = to_be_bytes 4 (length keys) in
    let e₁ = length-append {0} count (entries keys) in
    let e₂ = length-entries keys in
    bind-eq _ (take_u32-append (length keys) (entries keys) (omega arith))
      (bind-eq _ (read_entries-entries keys (omega arith)) refl)

-- What a client reads of an answer is the public key and the name of every key, in order.
pub read-identities_response :
    (keys : List KeySummary) (response : Bytes)
    → identities_response keys ≡ ok response
    → (take_string response ≡ ok (answer keys, []))
      × (read_answer (answer keys) ≡ ok (map identity keys))
read-identities_response keys response h =
    let short : length (answer keys) ≤ max_packet_length =
      ground (arith, identities_response_lem keys) in
    let e : response ≡ string (answer keys) = ground (arith, identities_response_lem keys) in
    (rw e (take_string_all (answer keys) (omega arith)), read_answer-answer keys short)

-- ===== src/Store/Defs.antt =====
-- A stored key, its validation and its file format.
use keyvisor.Files.Defs.{IoError}
use keyvisor.Prelude.{
  ℕ, ◌*◌, ◌^◌, Bool, not, ◌||◌, [], ◌∷◌, ◌++◌, ltb, leb, ◌==◌, if◌then◌else◌, length, is_empty,
  bytes_eq, Result, ok, err, ◌>>=◌, ◌>>◌, fail_if,
}
use keyvisor.Wire.Endian.{Bytes, to_be_bytes}
use keyvisor.Wire.Utf8.{from_utf8, codes}
use keyvisor.Wire.Cursor.{split_at, read_be}
use keyvisor.Core.{
  KeyAlgorithm, KeyUsePolicy, KeySummary, as_str, no_pin, tpm_pin, ecdsa_nist_p256, ecdsa_nist_p384,
  policy_eq,
}
use keyvisor.Tpm.Defs.{TpmObject}

-- `b"KEYVSR\x00\x01"`
abbrev pub magic : Bytes
magic = codes "KEYVSR" ++ 0 ∷ 1 ∷ []

abbrev pub max_text_len : ℕ
max_text_len = 4 * 1024

abbrev pub max_blob_len : ℕ
max_blob_len = 1024 * 1024

pub record StoredKey : Type 0 where
  pub summary : KeySummary
  pub object : TpmObject

pub data StoreError : Type 0 where
  io : IoError → StoreError
  invalid_record record_too_large : StoreError

-- The disjunction of `validate_record`: first the texts, then the blobs and the policies.
unfoldable pub texts_invalid : KeySummary → Bool
texts_invalid summary =
    is_empty (as_str summary.id)
    || is_empty summary.name
    || ltb max_text_len (length (as_str summary.id))
    || ltb max_text_len (length summary.name)

unfoldable pub blob_invalid : Bytes → Bool
blob_invalid bytes = is_empty bytes || ltb max_blob_len (length bytes)

unfoldable pub record_invalid : StoredKey → Bool
unfolding texts_invalid blob_invalid
record_invalid key =
    texts_invalid key.summary
    || blob_invalid key.summary.public_key
    || blob_invalid key.object.public
    || blob_invalid key.object.wrapped_private
    || blob_invalid key.object.parent_name
    || not (policy_eq key.summary.use_policy key.object.use_policy)

unfoldable pub validate_record : StoredKey → Result StoreError (Unit {0})
validate_record key = fail_if (record_invalid key) invalid_record

unfoldable pub algorithm_tag : KeyAlgorithm → ℕ
algorithm_tag ecdsa_nist_p256 = 1
algorithm_tag ecdsa_nist_p384 = 2

unfoldable pub policy_tag : KeyUsePolicy → ℕ
policy_tag no_pin = 1
policy_tag tpm_pin = 2

unfoldable pub push_bytes : Bytes → Bytes → ℕ → Result StoreError Bytes
push_bytes output bytes limit = do
  fail_if (ltb limit (length bytes)) record_too_large
  fail_if (leb (2 ^ 32) (length bytes)) record_too_large
  ok (output ++ (to_be_bytes 4 (length bytes) ++ bytes))

unfoldable pub encode : StoredKey → Result StoreError Bytes
encode key = do
  output₁ ← push_bytes magic (as_str key.summary.id) max_text_len
  output₂ ← push_bytes output₁ key.summary.name max_text_len
  let output₃ = output₂ ++ algorithm_tag key.summary.algorithm ∷ []
  let output₄ = output₃ ++ policy_tag key.summary.use_policy ∷ []
  output₅ ← push_bytes output₄ key.summary.public_key max_blob_len
  output₆ ← push_bytes output₅ key.object.public max_blob_len
  output₇ ← push_bytes output₆ key.object.wrapped_private max_blob_len
  push_bytes output₇ key.object.parent_name max_blob_len

unfoldable pub take_bytes : Bytes → ℕ → Result StoreError (Bytes × Bytes)
take_bytes input n = split_at invalid_record input n

-- `take(input, 1)?[0]`
unfoldable pub take_byte : Bytes → Result StoreError (ℕ × Bytes)
take_byte [] = err invalid_record
take_byte (b ∷ bs) = ok (b, bs)

unfoldable pub read_bytes : Bytes → ℕ → Result StoreError (Bytes × Bytes)
read_bytes input limit = do
  (n, input₁) ← read_be invalid_record 4 input
  fail_if (ltb limit n) record_too_large
  take_bytes input₁ n

unfoldable pub read_text : Bytes → Result StoreError (Bytes × Bytes)
read_text input = do
  (bytes, input₁) ← read_bytes input max_text_len
  text ← from_utf8 invalid_record bytes
  ok (text, input₁)

unfoldable pub read_algorithm : ℕ → Result StoreError KeyAlgorithm
read_algorithm tag =
    if tag == 1
    then ok ecdsa_nist_p256
    else if tag == 2
    then ok ecdsa_nist_p384
    else err invalid_record

unfoldable pub read_policy : ℕ → Result StoreError KeyUsePolicy
read_policy tag =
    if tag == 1 then ok no_pin else if tag == 2 then ok tpm_pin else err invalid_record

-- The key that `decode` builds of what it has read.
abbrev pub stored_key :
    Bytes → Bytes → KeyAlgorithm → KeyUsePolicy → Bytes → Bytes → Bytes → Bytes → StoredKey
stored_key id name algorithm use_policy public_key public wrapped_private parent_name = record {
  summary = record {
    id = record { value = id };
    name = name;
    algorithm = algorithm;
    use_policy = use_policy;
    public_key = public_key;
  };
  object = record {
    public = public;
    wrapped_private = wrapped_private;
    parent_name = parent_name;
    use_policy = use_policy;
  };
}

-- `decode` after the two tags.
unfoldable pub decode_blobs :
    Bytes → Bytes → KeyAlgorithm → KeyUsePolicy → Bytes → Result StoreError StoredKey
decode_blobs id name algorithm use_policy input = do
  (public_key, input₁) ← read_bytes input max_blob_len
  (public, input₂) ← read_bytes input₁ max_blob_len
  (wrapped_private, input₃) ← read_bytes input₂ max_blob_len
  (parent_name, input₄) ← read_bytes input₃ max_blob_len
  fail_if (not (is_empty input₄)) invalid_record
  let key = stored_key id name algorithm use_policy public_key public wrapped_private parent_name
  validate_record key
  ok key

-- `decode` after the two texts.
unfoldable pub decode_tags : Bytes → Bytes → Bytes → Result StoreError StoredKey
decode_tags id name input = do
  (algorithm_byte, input₁) ← take_byte input
  algorithm ← read_algorithm algorithm_byte
  (policy_byte, input₂) ← take_byte input₁
  use_policy ← read_policy policy_byte
  decode_blobs id name algorithm use_policy input₂

unfoldable pub decode : Bytes → Result StoreError StoredKey
decode bytes = do
  (found, input) ← take_bytes bytes (length magic)
  fail_if (not (bytes_eq found magic)) invalid_record
  (id, input₁) ← read_text input
  (name, input₂) ← read_text input₁
  decode_tags id name input₂

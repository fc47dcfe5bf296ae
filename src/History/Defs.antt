-- ===== src/History/Defs.antt =====
-- The record of one signature, and its file format.
use keyvisor.Files.Defs.{IoError}
use keyvisor.Prelude.{
  ℕ, zero, suc, ◌*◌, ◌^◌, Bool, not, ◌||◌, List, [], ◌∷◌, ◌++◌, ltb, leb, ◌==◌, if◌then◌else◌,
  length, is_empty, bytes_eq, Result, ok, err, ◌>>=◌, ◌>>◌, fail_if,
}
use keyvisor.Wire.Endian.{Bytes, to_be_bytes}
use keyvisor.Wire.Utf8.{from_utf8, codes}
use keyvisor.Wire.Cursor.{split_at, read_be}
use keyvisor.Core.{KeyId, KeyUsePolicy, as_str, no_pin, tpm_pin}

-- `b"KEYHST\x00\x01"`
abbrev pub magic : Bytes
magic = codes "KEYHST" ++ 0 ∷ 1 ∷ []

abbrev pub max_entries : ℕ
max_entries = 200

abbrev pub max_text_len : ℕ
max_text_len = 4 * 1024

pub data HistoryOutcome : Type 0 where
  succeeded failed : HistoryOutcome

pub record HistoryEntry : Type 0 where
  pub timestamp_seconds : ℕ
  pub key_id : KeyId
  pub key_name : Bytes
  pub use_policy : KeyUsePolicy
  pub outcome : HistoryOutcome

-- `Io` carries the error of the failed operation.
pub data HistoryError : Type 0 where
  io : IoError → HistoryError
  invalid_data : HistoryError

unfoldable pub entry_invalid : HistoryEntry → Bool
entry_invalid entry =
    is_empty (as_str entry.key_id)
    || ltb max_text_len (length (as_str entry.key_id))
    || is_empty entry.key_name
    || ltb max_text_len (length entry.key_name)

unfoldable pub validate_entry : HistoryEntry → Result HistoryError (Unit {0})
unfolding entry_invalid
validate_entry entry = fail_if (entry_invalid entry) invalid_data

unfoldable pub policy_tag : KeyUsePolicy → ℕ
policy_tag no_pin = 1
policy_tag tpm_pin = 2

unfoldable pub outcome_tag : HistoryOutcome → ℕ
outcome_tag succeeded = 1
outcome_tag failed = 2

-- `output` is the vector that grows.
unfoldable pub push_text : Bytes → Bytes → Result HistoryError Bytes
push_text output value = do
  fail_if (ltb max_text_len (length value)) invalid_data
  fail_if (leb (2 ^ 32) (length value)) invalid_data
  ok (output ++ (to_be_bytes 4 (length value) ++ value))

-- One round of the loop of `encode`.
unfoldable pub encode_entry : Bytes → HistoryEntry → Result HistoryError Bytes
encode_entry output entry = do
  validate_entry entry
  output₁ ← push_text (output ++ to_be_bytes 8 entry.timestamp_seconds) (as_str entry.key_id)
  output₂ ← push_text output₁ entry.key_name
  ok ((output₂ ++ policy_tag entry.use_policy ∷ []) ++ outcome_tag entry.outcome ∷ [])

unfoldable pub encode_entries : Bytes → List HistoryEntry → Result HistoryError Bytes
encode_entries output [] = ok output
encode_entries output (entry ∷ entries) = do
  output₁ ← encode_entry output entry
  encode_entries output₁ entries

unfoldable pub encode : List HistoryEntry → Result HistoryError Bytes
unfolding encode_entries
encode entries = do
  fail_if (ltb max_entries (length entries)) invalid_data
  fail_if (leb (2 ^ 32) (length entries)) invalid_data
  encode_entries (magic ++ to_be_bytes 4 (length entries)) entries

unfoldable pub take_bytes : Bytes → ℕ → Result HistoryError (Bytes × Bytes)
take_bytes input n = split_at invalid_data input n

unfoldable pub read_u32 : Bytes → Result HistoryError (ℕ × Bytes)
read_u32 input = read_be invalid_data 4 input

unfoldable pub read_text : Bytes → Result HistoryError (Bytes × Bytes)
read_text input = do
  (n, input₁) ← read_u32 input
  fail_if (ltb max_text_len n) invalid_data
  (bytes, input₂) ← take_bytes input₁ n
  text ← from_utf8 invalid_data bytes
  ok (text, input₂)

unfoldable pub read_policy : ℕ → Result HistoryError KeyUsePolicy
read_policy tag = if tag == 1 then ok no_pin else if tag == 2 then ok tpm_pin else err invalid_data

unfoldable pub read_outcome : ℕ → Result HistoryError HistoryOutcome
read_outcome tag =
    if tag == 1 then ok succeeded else if tag == 2 then ok failed else err invalid_data

-- `take(&mut input, 1)?[0]`
unfoldable pub take_byte : Bytes → Result HistoryError (ℕ × Bytes)
take_byte [] = err invalid_data
take_byte (b ∷ bs) = ok (b, bs)

-- One round of the loop of `decode`.
unfoldable pub decode_entry : Bytes → Result HistoryError (HistoryEntry × Bytes)
decode_entry input = do
  (timestamp_seconds, input₁) ← read_be invalid_data 8 input
  (key_id, input₂) ← read_text input₁
  (key_name, input₃) ← read_text input₂
  (policy, input₄) ← take_byte input₃
  use_policy ← read_policy policy
  (tag, input₅) ← take_byte input₄
  outcome ← read_outcome tag
  let entry : HistoryEntry = record {
    timestamp_seconds = timestamp_seconds;
    key_id = record { value = key_id };
    key_name = key_name;
    use_policy = use_policy;
    outcome = outcome;
  }
  validate_entry entry
  ok (entry, input₅)

-- `for _ in 0..count`
unfoldable pub decode_entries : ℕ → Bytes → Result HistoryError (List HistoryEntry × Bytes)
decode_entries zero input = ok ([], input)
decode_entries (suc count) input = do
  (entry, input₁) ← decode_entry input
  (entries, input₂) ← decode_entries count input₁
  ok (entry ∷ entries, input₂)

unfoldable pub decode : Bytes → Result HistoryError (List HistoryEntry)
unfolding decode_entries
decode bytes = do
  (found, input) ← take_bytes bytes (length magic)
  fail_if (not (bytes_eq found magic)) invalid_data
  (count, input₁) ← read_u32 input
  fail_if (ltb max_entries count) invalid_data
  (entries, input₂) ← decode_entries count input₁
  fail_if (not (is_empty input₂)) invalid_data
  ok entries

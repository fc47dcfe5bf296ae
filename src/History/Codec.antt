-- ===== src/History/Codec.antt =====
-- The file format of the history: the encoder against a grammar, and the decoder after it.
use keyvisor.Prelude.{
  ◌^◌, ◌≤◌, ◌<◌, ◌≡◌, refl, subst, inl, inr, Bool, true, false, not, ◌&&◌, List, [], ◌∷◌, ◌++◌,
  append_assoc, append-nil, arith, leb, if◌then◌else◌, Bool-cases, length, All, ok, err, bind-eq,
  append_assoc_four, fail_if-le,
}
use keyvisor.Wire.Endian.{Bytes, to_be_bytes}
use keyvisor.Wire.Utf8.{IsText, from_utf8-IsText}
use keyvisor.Wire.Strings.{string, read_be-string}
use keyvisor.Wire.Cursor.{split_at-append, read_be-append}
use keyvisor.Core.{KeyUsePolicy, as_str, no_pin, tpm_pin}
use keyvisor.History.Defs.{
  HistoryEntry, HistoryOutcome, succeeded, failed, policy_tag, magic, entry_invalid, push_text,
  encode_entry, outcome_tag, max_text_len, validate_entry, invalid_data, encode_entries, encode,
  read_text, read_policy, read_outcome, decode_entry, decode_entries, decode, max_entries, read_u32,
  take_byte, take_bytes,
}

-- The bytes of an entry.
unfoldable pub entry_bytes : HistoryEntry → Bytes
entry_bytes entry =
    to_be_bytes 8 entry.timestamp_seconds
    ++ (string (as_str entry.key_id)
        ++ (string entry.key_name
            ++ (policy_tag entry.use_policy ∷ outcome_tag entry.outcome ∷ [])))

unfoldable pub entries_bytes : List HistoryEntry → Bytes
entries_bytes [] = []
entries_bytes (entry ∷ entries) = entry_bytes entry ++ entries_bytes entries

-- The bytes of a file.
unfoldable pub file_bytes : List HistoryEntry → Bytes
file_bytes entries = magic ++ (to_be_bytes 4 (length entries) ++ entries_bytes entries)

-- What the types of the source ensure of an entry.
pub record IsTyped (entry : HistoryEntry) : Type 0 where
  pub seconds : entry.timestamp_seconds < 2 ^ 64
  pub id_text : IsText (as_str entry.key_id)
  pub name_text : IsText entry.key_name

unfoldable pub all_valid : List HistoryEntry → Bool
all_valid [] = true
all_valid (entry ∷ entries) = not (entry_invalid entry) && all_valid entries

name_lengths :
    (entry : HistoryEntry)
    → entry_invalid entry ≡ false
    → (length (as_str entry.key_id) ≤ max_text_len) × (length entry.key_name ≤ max_text_len)
unfolding entry_invalid
name_lengths entry h = ground arith

push_text_fits :
    (output value : Bytes)
    → length value ≤ max_text_len
    → push_text output value ≡ ok (output ++ string value)
unfolding push_text
push_text_fits output value h = ground arith

encode_entry_lem :
    (output : Bytes) (entry : HistoryEntry)
    → encode_entry output entry
      ≡ (if entry_invalid entry then err invalid_data else ok (output ++ entry_bytes entry))
unfolding encode_entry validate_entry entry_bytes
encode_entry_lem output entry = elim (Bool-cases (entry_invalid entry)) [
  | inl bad ↦ rw bad
  | inr good ↦
      let (id, name) = name_lengths entry good in
      rw (good) (
        bind-eq _ (push_text_fits _ (as_str entry.key_id) id)
          (bind-eq _ (push_text_fits _ entry.key_name name) (simp append_assoc)))
]

encode_entries_lem :
    (entries : List HistoryEntry) (output : Bytes)
    → encode_entries output entries
      ≡ (if all_valid entries then ok (output ++ entries_bytes entries) else err invalid_data)
unfolding encode_entries entries_bytes all_valid
encode_entries_lem [] output = rw (append-nil output)
encode_entries_lem (entry ∷ entries) output = ground (
  arith,
  encode_entry_lem output entry,
  encode_entries_lem entries (output ++ entry_bytes entry),
  append_assoc output (entry_bytes entry) (entries_bytes entries),
)

-- The encoder refuses a list exactly when it is longer than the bound or an entry is invalid, and
-- writes the bytes of the grammar otherwise.
pub encode_lem :
    (entries : List HistoryEntry)
    → encode entries ≡ (
        if leb (length entries) max_entries && all_valid entries
        then ok (file_bytes entries)
        else err invalid_data)
unfolding encode file_bytes
encode_lem entries = ground (
  arith,
  encode_entries_lem entries (magic ++ to_be_bytes 4 (length entries)),
  append_assoc magic (to_be_bytes 4 (length entries)) (entries_bytes entries),
)

read_text-string :
    (value rest : Bytes)
    → IsText value
    → length value ≤ max_text_len
    → read_text (string value ++ rest) ≡ ok (value, rest)
unfolding read_text read_u32 take_bytes
read_text-string value rest text fits =
    bind-eq _ (read_be-string invalid_data value rest (omega arith)) (
      bind-eq _ (fail_if-le (length value) max_text_len invalid_data fits) (
        bind-eq _ (split_at-append invalid_data value rest (length value) refl)
          (bind-eq _ (from_utf8-IsText invalid_data value text) refl)))

read_policy-policy_tag : (policy : KeyUsePolicy) → read_policy (policy_tag policy) ≡ ok policy
unfolding read_policy policy_tag
read_policy-policy_tag no_pin = refl
read_policy-policy_tag tpm_pin = refl

read_outcome-outcome_tag :
    (outcome : HistoryOutcome) → read_outcome (outcome_tag outcome) ≡ ok outcome
unfolding read_outcome outcome_tag
read_outcome-outcome_tag succeeded = refl
read_outcome-outcome_tag failed = refl

decode_entry-entry_bytes :
    (entry : HistoryEntry) (rest : Bytes)
    → IsTyped entry
    → entry_invalid entry ≡ false
    → decode_entry (entry_bytes entry ++ rest) ≡ ok (entry, rest)
unfolding decode_entry entry_bytes take_byte validate_entry
decode_entry-entry_bytes entry rest typed valid =
    let (id, name) = name_lengths entry valid in
    rw
      (append_assoc_four (to_be_bytes 8 entry.timestamp_seconds) (string (as_str entry.key_id))
        (string entry.key_name) (policy_tag entry.use_policy ∷ outcome_tag entry.outcome ∷ []) rest)
      (bind-eq _ (read_be-append invalid_data 8 entry.timestamp_seconds _ typed.seconds) (
        bind-eq _ (read_text-string (as_str entry.key_id) _ typed.id_text id) (
          bind-eq _ (read_text-string entry.key_name _ typed.name_text name) (
            bind-eq _ (read_policy-policy_tag entry.use_policy)
              (bind-eq _ (read_outcome-outcome_tag entry.outcome) (rw valid))))))

decode_entries-entries_bytes :
    (entries : List HistoryEntry) (rest : Bytes)
    → All IsTyped entries
    → all_valid entries ≡ true
    → decode_entries (length entries) (entries_bytes entries ++ rest) ≡ ok (entries, rest)
unfolding decode_entries entries_bytes all_valid
decode_entries-entries_bytes [] rest _ _ = refl
decode_entries-entries_bytes (entry ∷ entries) rest (typed, all_typed) valid = rw append_assoc (
    bind-eq _ (decode_entry-entry_bytes entry _ typed (ground arith))
      (bind-eq _ (decode_entries-entries_bytes entries rest all_typed (ground arith)) refl))

All-read :
    (entries : List HistoryEntry)
    → All IsTyped entries
    → all_valid entries ≡ true
    → decode_entries (length entries) (entries_bytes entries) ≡ ok (entries, [])
All-read entries typed valid =
    subst (λ s. decode_entries (length entries) s ≡ ok (entries, []))
      (append-nil (entries_bytes entries)) (decode_entries-entries_bytes entries [] typed valid)

-- What the encoder writes is read back as the same entries.
pub decode-encode :
    (entries : List HistoryEntry) (bytes : Bytes)
    → All IsTyped entries
    → encode entries ≡ ok bytes
    → decode bytes ≡ ok entries
unfolding decode file_bytes read_u32 take_bytes
decode-encode entries bytes typed h =
    let valid : all_valid entries ≡ true = ground (arith, encode_lem entries) in
    let short : length entries ≤ max_entries = ground (arith, encode_lem entries) in
    let e : bytes ≡ magic ++ (to_be_bytes 4 (length entries) ++ entries_bytes entries) =
      ground (arith, encode_lem entries) in
    rw e (
      bind-eq _ (split_at-append invalid_data magic _ 8 refl) (
        bind-eq _
          (read_be-append invalid_data 4 (length entries) (entries_bytes entries) (omega arith))
          (bind-eq _ (fail_if-le (length entries) max_entries invalid_data short)
            (bind-eq _ (All-read entries typed valid) refl))))

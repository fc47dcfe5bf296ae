-- ===== src/History/Canonical.antt =====
-- `decode` of history.rs on any bytes, against the encoder.
use mathlib.Core.Path.{ap₂}
use keyvisor.Wire.Strings.{string}
use keyvisor.Core.{KeyUsePolicy, as_str}
use keyvisor.History.Defs.{
  read_text, take_byte, read_policy, read_outcome, decode_entry, read_u32, policy_tag, outcome_tag,
  validate_entry, take_bytes, HistoryOutcome, HistoryEntry, entry_invalid, invalid_data,
  max_text_len, decode_entries, decode, encode, magic, max_entries,
}
use keyvisor.Prelude.{
  ℕ, zero, suc, ◌≡◌, ap, ◌∙◌, subst, ◌↔◌, true, false, not, List, [], ◌∷◌, ◌++◌, append_assoc,
  append-nil, arith, ltb, length, is_empty, is_empty-eq-true, All, bytes_eq, bytes_eq_sound, ok,
  fail_if, bind-eq-ok, append_assoc_four, ok-injective, ok_pair-injective, not-eq-false,
  fail_if-eq-ok,
}
use keyvisor.Wire.Endian.{Bytes, to_be_bytes, AreBytes}
use keyvisor.Wire.Utf8.{IsText, from_utf8, from_utf8-eq-ok}
use keyvisor.Wire.Cursor.{split_at-eq-ok, read_be-eq-ok, split_at-AreBytes, read_be, split_at}
use keyvisor.History.Codec.{
  IsTyped, entry_bytes, entries_bytes, file_bytes, all_valid, encode_lem, decode-encode,
}

read_text-eq-ok :
    (input : Bytes) {value rest : Bytes}
    → AreBytes input
    → read_text input ≡ ok (value, rest)
    → (input ≡ string value ++ rest) × IsText value × AreBytes rest
unfolding read_text read_u32 take_bytes
read_text-eq-ok input {value} {rest} all h =
    let (p, e₁, h₁) = bind-eq-ok (read_be invalid_data 4 input) _ h in
    let (u, e₂, h₂) = bind-eq-ok (fail_if (ltb max_text_len p.0) invalid_data) _ h₁ in
    let (q, e₃, h₃) = bind-eq-ok (split_at invalid_data p.1 p.0) _ h₂ in
    let (text, e₄, h₄) = bind-eq-ok (from_utf8 invalid_data q.0) _ h₃ in
    let (j₁, _, all₁) = read_be-eq-ok invalid_data 4 input all e₁ in
    let (j₃, len) = split_at-eq-ok invalid_data p.1 p.0 e₃ in
    let (_, all₃) = split_at-AreBytes invalid_data p.1 p.0 all₁ e₃ in
    let (is_text, same) = from_utf8-eq-ok invalid_data q.0 e₄ in
    let v : q.0 ≡ value = cc in
    let r : q.1 ≡ rest = cc in
    let joined : input ≡ string q.0 ++ q.1 = rw (j₁, j₃, ← len, append_assoc) in
    (cc (joined, v, r), subst IsText v is_text, subst AreBytes r all₃)

take_byte-eq-ok :
    (input : Bytes) {b : ℕ} {rest : Bytes} → take_byte input ≡ ok (b, rest) → input ≡ b ∷ rest
unfolding take_byte
take_byte-eq-ok [] h = cc
take_byte-eq-ok (c ∷ cs) h = cc

read_policy-eq-ok :
    (tag : ℕ) {policy : KeyUsePolicy} → read_policy tag ≡ ok policy → tag ≡ policy_tag policy
unfolding read_policy policy_tag
read_policy-eq-ok tag h = ground arith

read_outcome-eq-ok :
    (tag : ℕ) {outcome : HistoryOutcome} → read_outcome tag ≡ ok outcome → tag ≡ outcome_tag outcome
unfolding read_outcome outcome_tag
read_outcome-eq-ok tag h = ground arith

-- The parts that `decode_entry` reads, joined.
entry_parts :
    (entry : HistoryEntry) {input : Bytes} (a b c rest : Bytes)
    → input ≡ to_be_bytes 8 entry.timestamp_seconds ++ a
    → a ≡ string (as_str entry.key_id) ++ b
    → b ≡ string entry.key_name ++ c
    → c ≡ policy_tag entry.use_policy ∷ outcome_tag entry.outcome ∷ rest
    → input ≡ entry_bytes entry ++ rest
unfolding entry_bytes
entry_parts entry a b c rest ea eb ec ed = cc (
  ea,
  eb,
  ec,
  ed,
  append_assoc_four (to_be_bytes 8 entry.timestamp_seconds) (string (as_str entry.key_id))
      (string entry.key_name) (policy_tag entry.use_policy ∷ outcome_tag entry.outcome ∷ []) rest,
)

take_two-AreBytes :
    (input : Bytes) (b : ℕ) (bs : Bytes) (c : ℕ) (cs : Bytes)
    → AreBytes input
    → input ≡ b ∷ bs
    → bs ≡ c ∷ cs
    → AreBytes cs
take_two-AreBytes input b bs c cs all e e' =
    let here : AreBytes (b ∷ bs) = subst AreBytes e all in
    let next : AreBytes (c ∷ cs) = subst AreBytes e' here.1 in next.1

decode_entry-eq-ok :
    (input : Bytes) {entry : HistoryEntry} {rest : Bytes}
    → AreBytes input
    → decode_entry input ≡ ok (entry, rest)
    → (input ≡ entry_bytes entry ++ rest)
      × (entry_invalid entry ≡ false)
      × IsTyped entry
      × AreBytes rest
unfolding decode_entry validate_entry
decode_entry-eq-ok input {entry} {rest} all h =
    let (p, e₁, h₁) = bind-eq-ok (read_be invalid_data 8 input) _ h in
    let (q, e₂, h₂) = bind-eq-ok (read_text p.1) _ h₁ in
    let (r, e₃, h₃) = bind-eq-ok (read_text q.1) _ h₂ in
    let (s, e₄, h₄) = bind-eq-ok (take_byte r.1) _ h₃ in
    let (policy, e₅, h₅) = bind-eq-ok (read_policy s.0) _ h₄ in
    let (t, e₆, h₆) = bind-eq-ok (take_byte s.1) _ h₅ in
    let (outcome, e₇, h₇) = bind-eq-ok (read_outcome t.0) _ h₆ in
    let (u, e₈, h₈) = bind-eq-ok (fail_if _ invalid_data) _ h₇ in
    let (j₁, seconds, all₁) = read_be-eq-ok invalid_data 8 input all e₁ in
    let (j₂, id_text, all₂) = read_text-eq-ok p.1 all₁ e₂ in
    let (j₃, name_text, all₃) = read_text-eq-ok q.1 all₂ e₃ in
    let j₄ = take_byte-eq-ok r.1 e₄ in
    let j₆ = take_byte-eq-ok s.1 e₆ in
    let found : HistoryEntry = record {
      timestamp_seconds = p.0;
      key_id = record { value = q.0 };
      key_name = r.0;
      use_policy = policy;
      outcome = outcome;
    } in
    let (same, left) = ok_pair-injective {a = found} {c = entry} h₈ in
    let tags = ap (λ b. b ∷ t.0 ∷ t.1) (read_policy-eq-ok s.0 e₅) in
    let tags' = ap (λ b. policy_tag policy ∷ b ∷ t.1) (read_outcome-eq-ok t.0 e₇) in
    let joined : input ≡ entry_bytes found ++ t.1 =
      entry_parts found p.1 q.1 r.1 t.1 j₁ j₂ j₃ (j₄ ∙ ap (λ x. s.0 ∷ x) j₆ ∙ tags ∙ tags') in
    (
      joined ∙ ap₂ (λ e r. entry_bytes e ++ r) same left,
      subst (λ e. entry_invalid e ≡ false) same (fail_if-eq-ok _ _ e₈),
      subst IsTyped same (record { seconds = seconds; id_text = id_text; name_text = name_text }),
      subst AreBytes left (take_two-AreBytes r.1 s.0 s.1 t.0 t.1 all₃ j₄ j₆),
    )

decode_entries-eq-ok :
    (count : ℕ) (input : Bytes) {entries : List HistoryEntry} {rest : Bytes}
    → AreBytes input
    → decode_entries count input ≡ ok (entries, rest)
    → (input ≡ entries_bytes entries ++ rest)
      × (length entries ≡ count)
      × (all_valid entries ≡ true)
      × All IsTyped entries
unfolding decode_entries entries_bytes all_valid
decode_entries-eq-ok zero input {entries} {rest} all h =
    let (same, left) = ok_pair-injective {a = []} {c = entries} h in
    (rw (← same, ← left), rw (← same), rw (← same), rw (← same) tt)
decode_entries-eq-ok (suc count) input {entries} {rest} all h =
    let (p, e₁, h₁) = bind-eq-ok (decode_entry input) _ h in
    let (q, e₂, h₂) = bind-eq-ok (decode_entries count p.1) _ h₁ in
    let (j₁, valid, typed, all₁) = decode_entry-eq-ok input all e₁ in
    let (j₂, len, valids, typeds) = decode_entries-eq-ok count p.1 all₁ e₂ in
    let (same, left) = ok_pair-injective {a = p.0 ∷ q.0} {c = entries} h₂ in
    let joined : input ≡ (entry_bytes p.0 ++ entries_bytes q.0) ++ q.1 =
      rw (j₁, j₂, append_assoc) in
    (
      rw (← same, ← left) joined,
      rw (← same) (ap suc len),
      rw (← same) (ground arith),
      rw (← same) (typed, typeds),
    )

file_parts :
    (entries : List HistoryEntry) {bytes : Bytes} (a b : Bytes) (count : ℕ)
    → bytes ≡ magic ++ a
    → a ≡ to_be_bytes 4 count ++ b
    → length entries ≡ count
    → b ≡ entries_bytes entries
    → bytes ≡ file_bytes entries
unfolding file_bytes
file_parts entries a b count ea eb len eb' = rw (ea, eb, eb', ← len)

encode_file :
    (entries : List HistoryEntry) {bytes : Bytes}
    → bytes ≡ file_bytes entries
    → ltb max_entries (length entries) ≡ false
    → all_valid entries ≡ true
    → encode entries ≡ ok bytes
encode_file entries e short valid = ground (arith, encode_lem entries)

-- A file is read as a list of entries exactly when it is what the encoder writes for that list, the
-- timestamps fit 64 bits and the names are UTF-8: no two files hold the same history, and a
-- truncated, padded or altered file is refused unless it is another history's own file.
pub decode_history-exact :
    (bytes : Bytes) (entries : List HistoryEntry)
    → AreBytes bytes
    → (decode bytes ≡ ok entries) ↔ ((encode entries ≡ ok bytes) × All IsTyped entries)
unfolding decode read_u32 take_bytes
decode_history-exact bytes entries all = (
  λ h.
      let (p, e₁, h₁) = bind-eq-ok (split_at invalid_data bytes (length magic)) _ h in
      let (u, e₂, h₂) = bind-eq-ok (fail_if (not (bytes_eq p.0 magic)) invalid_data) _ h₁ in
      let (q, e₃, h₃) = bind-eq-ok (read_be invalid_data 4 p.1) _ h₂ in
      let (v, e₄, h₄) = bind-eq-ok (fail_if (ltb max_entries q.0) invalid_data) _ h₃ in
      let (r, e₅, h₅) = bind-eq-ok (decode_entries q.0 q.1) _ h₄ in
      let (w, e₆, h₆) = bind-eq-ok (fail_if (not (is_empty r.1)) invalid_data) _ h₅ in
      let (_, all₁) = split_at-AreBytes invalid_data bytes (length magic) all e₁ in
      let (j₁, _) = split_at-eq-ok invalid_data bytes (length magic) e₁ in
      let (j₃, _, all₃) = read_be-eq-ok invalid_data 4 p.1 all₁ e₃ in
      let (j₅, len, valid, typed) = decode_entries-eq-ok q.0 q.1 all₃ e₅ in
      let same : r.0 ≡ entries = ok-injective h₆ in
      let head : p.0 ≡ magic = bytes_eq_sound p.0 magic (not-eq-false (fail_if-eq-ok _ _ e₂)) in
      let done : r.1 ≡ [] = is_empty-eq-true r.1 (not-eq-false (fail_if-eq-ok _ _ e₆)) in
      let bound = fail_if-eq-ok _ _ e₄ in
      let joined : bytes ≡ file_bytes r.0 =
        file_parts r.0 p.1 q.1 q.0 (j₁ ∙ ap (λ m. m ++ p.1) head) j₃ len
          (j₅ ∙ ap (λ x. entries_bytes r.0 ++ x) done ∙ append-nil _) in
      (
        subst (λ e. encode e ≡ ok bytes) same (encode_file r.0 joined (rw len bound) valid),
        subst (All IsTyped) same typed,
      ),
  λ c. decode-encode entries bytes c.1 c.0,
)

-- ===== src/Store/Canonical.antt =====
-- `decode` of the key store on any bytes, against the encoder.
use keyvisor.Store.Codec.{record_bytes, blobs, IsTyped, encode_valid, decode-record_bytes}
use keyvisor.Wire.Strings.{string}
use keyvisor.Prelude.{
  ℕ, ◌≡◌, refl, sym, ap, ◌∙◌, subst, ◌↔◌, false, not, [], ◌∷◌, ◌++◌, append_assoc, append-nil,
  arith, ltb, length, is_empty, is_empty-eq-true, bytes_eq, bytes_eq_sound, ok, fail_if, bind-eq-ok,
  ok-injective, ok_pair-injective, not-eq-false, fail_if-eq-ok,
}
use mathlib.Core.Path.{ap₂}
use keyvisor.Core.{KeyUsePolicy, KeyAlgorithm, as_str}
use keyvisor.Wire.Endian.{Bytes, AreBytes}
use keyvisor.Wire.Utf8.{IsText, from_utf8, from_utf8-eq-ok}
use keyvisor.Wire.Cursor.{split_at-eq-ok, read_be-eq-ok, split_at-AreBytes, read_be, split_at}
use keyvisor.Store.Defs.{
  magic, max_text_len, max_blob_len, invalid_record, record_too_large, take_bytes, take_byte,
  read_bytes, read_text, decode, encode, read_policy, policy_tag, read_algorithm, validate_record,
  algorithm_tag, StoredKey, record_invalid, decode_blobs, decode_tags,
}

read_bytes-eq-ok :
    (input : Bytes) (limit : ℕ) {value rest : Bytes}
    → AreBytes input
    → read_bytes input limit ≡ ok (value, rest)
    → (input ≡ string value ++ rest) × AreBytes rest
unfolding read_bytes take_bytes
read_bytes-eq-ok input limit {value} {rest} all h =
    let (p, e₁, h₁) = bind-eq-ok (read_be invalid_record 4 input) _ h in
    let (u, e₂, h₂) = bind-eq-ok (fail_if (ltb limit p.0) record_too_large) _ h₁ in
    let (j₁, _, all₁) = read_be-eq-ok invalid_record 4 input all e₁ in
    let (j₂, len) = split_at-eq-ok invalid_record p.1 p.0 h₂ in
    let (_, all₂) = split_at-AreBytes invalid_record p.1 p.0 all₁ h₂ in
    (rw (j₁, j₂, ← len, append_assoc), all₂)

read_text-eq-ok :
    (input : Bytes) {value rest : Bytes}
    → AreBytes input
    → read_text input ≡ ok (value, rest)
    → (input ≡ string value ++ rest) × IsText value × AreBytes rest
unfolding read_text
read_text-eq-ok input {value} {rest} all h =
    let (p, e₁, h₁) = bind-eq-ok (read_bytes input max_text_len) _ h in
    let (text, e₂, h₂) = bind-eq-ok (from_utf8 invalid_record p.0) _ h₁ in
    let (j, all₁) = read_bytes-eq-ok input max_text_len all e₁ in
    let (is_text, same) = from_utf8-eq-ok invalid_record p.0 e₂ in
    let (v', r) = ok_pair-injective {a = text} {c = value} h₂ in
    let v = sym same ∙ v' in
    (j ∙ ap₂ (λ x y. string x ++ y) v r, subst IsText v is_text, subst AreBytes r all₁)

take_byte-eq-ok :
    (input : Bytes) {b : ℕ} {rest : Bytes}
    → AreBytes input
    → take_byte input ≡ ok (b, rest)
    → (input ≡ b ∷ rest) × AreBytes rest
unfolding take_byte
take_byte-eq-ok [] all h = cc
take_byte-eq-ok (c ∷ cs) all h =
    let (e, e') = ok_pair-injective {a = c} h in (ap₂ (λ x y. x ∷ y) e e', subst AreBytes e' all.1)

read_policy-eq-ok :
    (tag : ℕ) {policy : KeyUsePolicy} → read_policy tag ≡ ok policy → tag ≡ policy_tag policy
unfolding read_policy policy_tag
read_policy-eq-ok tag h = ground arith

read_algorithm-eq-ok :
    (tag : ℕ) {algorithm : KeyAlgorithm}
    → read_algorithm tag ≡ ok algorithm
    → tag ≡ algorithm_tag algorithm
unfolding read_algorithm algorithm_tag
read_algorithm-eq-ok tag h = ground arith

-- The fields of a key that stand in a file before its blobs.
record HasHead (key : StoredKey) (id name : Bytes) (algorithm : KeyAlgorithm)
    (policy : KeyUsePolicy) : Type 0 where
  id_eq : as_str key.summary.id ≡ id
  name_eq : key.summary.name ≡ name
  algorithm_eq : key.summary.algorithm ≡ algorithm
  policy_eq : key.summary.use_policy ≡ policy

four_parts :
    (k o w q s₁ s₂ s₃ s₄ s₅ : Bytes)
    → s₁ ≡ k ++ s₂
    → s₂ ≡ o ++ s₃
    → s₃ ≡ w ++ s₄
    → s₄ ≡ q ++ s₅
    → s₅ ≡ []
    → s₁ ≡ k ++ (o ++ (w ++ q))
four_parts k o w q s₁ s₂ s₃ s₄ s₅ e₁ e₂ e₃ e₄ e₅ = rw (e₁, e₂, e₃, e₄, e₅, append-nil)

module _ (id name : Bytes) (algorithm : KeyAlgorithm) (policy : KeyUsePolicy) where
  decode_blobs-eq-ok :
      (input : Bytes) {key : StoredKey}
      → AreBytes input
      → decode_blobs id name algorithm policy input ≡ ok key
      → (input ≡ blobs key) × (record_invalid key ≡ false) × HasHead key id name algorithm policy
  unfolding decode_blobs validate_record blobs
  decode_blobs-eq-ok input {key} all h =
      let (k, e₁, h₁) = bind-eq-ok (read_bytes input max_blob_len) _ h in
      let (o, e₂, h₂) = bind-eq-ok (read_bytes k.1 max_blob_len) _ h₁ in
      let (w, e₃, h₃) = bind-eq-ok (read_bytes o.1 max_blob_len) _ h₂ in
      let (q, e₄, h₄) = bind-eq-ok (read_bytes w.1 max_blob_len) _ h₃ in
      let (v, e₅, h₅) = bind-eq-ok (fail_if (not (is_empty q.1)) invalid_record) _ h₄ in
      let (x, e₆, h₆) = bind-eq-ok (fail_if _ invalid_record) _ h₅ in
      let (j₁, all₁) = read_bytes-eq-ok input max_blob_len all e₁ in
      let (j₂, all₂) = read_bytes-eq-ok k.1 max_blob_len all₁ e₂ in
      let (j₃, all₃) = read_bytes-eq-ok o.1 max_blob_len all₂ e₃ in
      let (j₄, _) = read_bytes-eq-ok w.1 max_blob_len all₃ e₄ in
      let done : q.1 ≡ [] = is_empty-eq-true q.1 (not-eq-false (fail_if-eq-ok _ _ e₅)) in
      subst
        (λ y. (input ≡ blobs y) × (record_invalid y ≡ false) × HasHead y id name algorithm policy)
        (ok-injective {b = key} h₆)
        (
          four_parts (string k.0) (string o.0) (string w.0) (string q.0) input k.1 o.1 w.1 q.1 j₁ j₂
              j₃ j₄ done,
          fail_if-eq-ok _ _ e₆,
          record { id_eq = refl; name_eq = refl; algorithm_eq = refl; policy_eq = refl },
        )

decode_tags-eq-ok :
    (id name input : Bytes) {key : StoredKey}
    → AreBytes input
    → decode_tags id name input ≡ ok key
    → (input ≡ algorithm_tag key.summary.algorithm ∷ policy_tag key.summary.use_policy ∷ blobs key)
      × (record_invalid key ≡ false)
      × (as_str key.summary.id ≡ id)
      × (key.summary.name ≡ name)
unfolding decode_tags
decode_tags-eq-ok id name input {key} all h =
    let (a, e₁, h₁) = bind-eq-ok (take_byte input) _ h in
    let (algorithm, e₂, h₂) = bind-eq-ok (read_algorithm a.0) _ h₁ in
    let (b, e₃, h₃) = bind-eq-ok (take_byte a.1) _ h₂ in
    let (policy, e₄, h₄) = bind-eq-ok (read_policy b.0) _ h₃ in
    let (j₁, all₁) = take_byte-eq-ok input all e₁ in
    let (j₃, all₃) = take_byte-eq-ok a.1 all₁ e₃ in
    let (j, valid, head) = decode_blobs-eq-ok id name algorithm policy b.1 {key = key} all₃ h₄ in
    let a_tag = read_algorithm-eq-ok a.0 e₂ ∙ ap algorithm_tag (sym head.algorithm_eq) in
    let b_tag = read_policy-eq-ok b.0 e₄ ∙ ap policy_tag (sym head.policy_eq) in
    (
      j₁ ∙ ap₂ (λ x y. x ∷ y) a_tag (j₃ ∙ ap₂ (λ x y. x ∷ y) b_tag j),
      valid,
      head.id_eq,
      head.name_eq,
    )

decode-eq-ok :
    (bytes : Bytes) {key : StoredKey}
    → AreBytes bytes
    → decode bytes ≡ ok key
    → (bytes ≡ record_bytes key) × (record_invalid key ≡ false) × IsTyped key
unfolding decode take_bytes record_bytes
decode-eq-ok bytes {key} all h =
    let (p, e₁, h₁) = bind-eq-ok (split_at invalid_record bytes (length magic)) _ h in
    let (u, e₂, h₂) = bind-eq-ok (fail_if (not (bytes_eq p.0 magic)) invalid_record) _ h₁ in
    let (id, e₃, h₃) = bind-eq-ok (read_text p.1) _ h₂ in
    let (name, e₄, h₄) = bind-eq-ok (read_text id.1) _ h₃ in
    let (_, all₁) = split_at-AreBytes invalid_record bytes (length magic) all e₁ in
    let (j₁, _) = split_at-eq-ok invalid_record bytes (length magic) e₁ in
    let found = bytes_eq_sound p.0 magic (not-eq-false (fail_if-eq-ok _ _ e₂)) in
    let (j₃, id_text, all₃) = read_text-eq-ok p.1 all₁ e₃ in
    let (j₄, name_text, all₄) = read_text-eq-ok id.1 all₃ e₄ in
    let (j₅, valid, id_eq, name_eq) = decode_tags-eq-ok id.0 name.0 name.1 {key = key} all₄ h₄ in
    let name_part = ap₂ (λ x y. string x ++ y) (sym name_eq) j₅ in
    let id_part = ap₂ (λ x y. string x ++ y) (sym id_eq) (j₄ ∙ name_part) in
    (
      j₁ ∙ ap₂ (λ x y. x ++ y) found (j₃ ∙ id_part),
      valid,
      record {
        id_text = subst IsText (sym id_eq) id_text;
        name_text = subst IsText (sym name_eq) name_text;
      },
    )

-- A file is read as a key exactly when the key is valid, its texts are UTF-8, and the file is what
-- the encoder writes for it: loading undoes saving, and no two files hold the same key.
pub decode-exact :
    (bytes : Bytes) (key : StoredKey)
    → AreBytes bytes
    → (decode bytes ≡ ok key)
      ↔ ((validate_record key ≡ ok tt) × (encode key ≡ ok bytes) × IsTyped key)
unfolding validate_record
decode-exact bytes key all = (
  λ h.
      let (e, valid, typed) = decode-eq-ok bytes all h in
      (rw valid, encode_valid key valid ∙ ap ok (sym e), typed),
  λ c.
      let valid = fail_if-eq-ok (record_invalid key) invalid_record c.0 in
      let e : bytes ≡ record_bytes key = ok-injective (sym c.1 ∙ encode_valid key valid) in
      rw e (decode-record_bytes key c.2 valid),
)

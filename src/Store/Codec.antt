-- ===== src/Store/Codec.antt =====
-- The record format: the encoder against a grammar, and the decoder after it.
use keyvisor.Core.{as_str, KeySummary, KeyUsePolicy, KeyAlgorithm}
use keyvisor.Prelude.{
  ℕ, ◌^◌, ◌≤◌, ◌<◌, ◌≡◌, refl, ap, ◌∙◌, subst, Bool, false, ◌||◌, [], ◌∷◌, ◌++◌, append_assoc,
  append-nil, arith, length, ok, ◌>>◌, bind-eq, fail_if-le,
}
use keyvisor.Core.{ecdsa_nist_p256, ecdsa_nist_p384, no_pin, tpm_pin}
use keyvisor.Wire.Endian.{Bytes}
use keyvisor.Wire.Utf8.{IsText, from_utf8-IsText}
use keyvisor.Wire.Strings.{string, read_be-string}
use keyvisor.Wire.Cursor.{split_at-append}
use keyvisor.Store.Defs.{
  magic, max_text_len, max_blob_len, invalid_record, record_too_large, take_bytes, take_byte,
  read_bytes, read_text, decode, encode, push_bytes, read_policy, policy_tag, StoredKey,
  texts_invalid, blob_invalid, record_invalid, algorithm_tag, read_algorithm, validate_record,
  stored_key, decode_tags, decode_blobs,
}

-- The bytes of a record, to the right of those before them.
unfoldable pub blobs : StoredKey → Bytes
blobs key =
    string key.summary.public_key
    ++ (string key.object.public
        ++ (string key.object.wrapped_private ++ string key.object.parent_name))

unfoldable pub record_bytes : StoredKey → Bytes
unfolding blobs
record_bytes key =
    magic
    ++ (string (as_str key.summary.id)
        ++ (string key.summary.name
            ++ (algorithm_tag key.summary.algorithm
                ∷ policy_tag key.summary.use_policy
                ∷ blobs key)))

pub record IsTyped (key : StoredKey) : Type 0 where
  pub id_text : IsText (as_str key.summary.id)
  pub name_text : IsText key.summary.name

-- The bounds that a valid record keeps.
pub record IsBounded (key : StoredKey) : Type 0 where
  pub id : length (as_str key.summary.id) ≤ max_text_len
  pub name : length key.summary.name ≤ max_text_len
  pub public_key : length key.summary.public_key ≤ max_blob_len
  pub public : length key.object.public ≤ max_blob_len
  pub wrapped_private : length key.object.wrapped_private ≤ max_blob_len
  pub parent_name : length key.object.parent_name ≤ max_blob_len

||-false : (a b : Bool) → (a || b) ≡ false → (a ≡ false) × (b ≡ false)
||-false a b h = ground arith

texts_bounded :
    (summary : KeySummary)
    → texts_invalid summary ≡ false
    → (length (as_str summary.id) ≤ max_text_len) × (length summary.name ≤ max_text_len)
unfolding texts_invalid
texts_bounded summary h = ground arith

blob_bounded : (bytes : Bytes) → blob_invalid bytes ≡ false → length bytes ≤ max_blob_len
unfolding blob_invalid
blob_bounded bytes h = ground arith

pub valid-IsBounded : (key : StoredKey) → record_invalid key ≡ false → IsBounded key
unfolding record_invalid
valid-IsBounded key h = ground (
  arith,
  texts_bounded key.summary,
  blob_bounded key.summary.public_key,
  blob_bounded key.object.public,
  blob_bounded key.object.wrapped_private,
  blob_bounded key.object.parent_name,
)

push_bytes_fits :
    (output bytes : Bytes) (limit : ℕ)
    → length bytes ≤ limit
    → limit < 2 ^ 32
    → push_bytes output bytes limit ≡ ok (output ++ string bytes)
unfolding push_bytes
push_bytes_fits output bytes limit h l = ground arith

flat_record :
    (m i n : Bytes) (a p : ℕ) (k o w q : Bytes)
    → (((((((m ++ i) ++ n) ++ a ∷ []) ++ p ∷ []) ++ k) ++ o) ++ w) ++ q
      ≡ m ++ (i ++ (n ++ (a ∷ p ∷ (k ++ (o ++ (w ++ q))))))
flat_record m i n a p k o w q = simp append_assoc

-- A valid key is always encoded, as the bytes of the grammar.
pub encode_valid :
    (key : StoredKey) → record_invalid key ≡ false → encode key ≡ ok (record_bytes key)
unfolding encode record_bytes blobs
encode_valid key h =
    let b = valid-IsBounded key h in
    bind-eq _ (push_bytes_fits magic (as_str key.summary.id) max_text_len b.id (omega arith)) (
      bind-eq _ (push_bytes_fits _ key.summary.name max_text_len b.name (omega arith)) (
        bind-eq _ (push_bytes_fits _ key.summary.public_key max_blob_len b.public_key (omega arith))
          (bind-eq _ (push_bytes_fits _ key.object.public max_blob_len b.public (omega arith)) (
            bind-eq _
              (push_bytes_fits _ key.object.wrapped_private max_blob_len b.wrapped_private
                (omega arith))
              (push_bytes_fits _ key.object.parent_name max_blob_len b.parent_name (omega arith)
                ∙ ap ok (
                    flat_record magic (string (as_str key.summary.id)) (string key.summary.name)
                      (algorithm_tag key.summary.algorithm) (policy_tag key.summary.use_policy)
                      (string key.summary.public_key) (string key.object.public)
                      (string key.object.wrapped_private) (string key.object.parent_name)))))))

read_bytes-string :
    (value rest : Bytes) (limit : ℕ)
    → length value ≤ limit
    → limit < 2 ^ 32
    → read_bytes (string value ++ rest) limit ≡ ok (value, rest)
unfolding read_bytes take_bytes
read_bytes-string value rest limit fits small =
    bind-eq _ (read_be-string invalid_record value rest (omega arith)) (
      bind-eq _ (fail_if-le (length value) limit record_too_large fits)
        (split_at-append invalid_record value rest (length value) refl))

read_text-string :
    (value rest : Bytes)
    → IsText value
    → length value ≤ max_text_len
    → read_text (string value ++ rest) ≡ ok (value, rest)
unfolding read_text
read_text-string value rest text fits =
    bind-eq _ (read_bytes-string value rest max_text_len fits (omega arith))
      (bind-eq _ (from_utf8-IsText invalid_record value text) refl)

read_bytes-last :
    (value : Bytes) (limit : ℕ)
    → length value ≤ limit
    → limit < 2 ^ 32
    → read_bytes (string value) limit ≡ ok (value, [])
read_bytes-last value limit fits small =
    subst (λ s. read_bytes s limit ≡ ok (value, [])) (append-nil (string value))
      (read_bytes-string value [] limit fits small)

read_algorithm-algorithm_tag :
    (algorithm : KeyAlgorithm) → read_algorithm (algorithm_tag algorithm) ≡ ok algorithm
unfolding read_algorithm algorithm_tag
read_algorithm-algorithm_tag ecdsa_nist_p256 = refl
read_algorithm-algorithm_tag ecdsa_nist_p384 = refl

read_policy-policy_tag : (policy : KeyUsePolicy) → read_policy (policy_tag policy) ≡ ok policy
unfolding read_policy policy_tag
read_policy-policy_tag no_pin = refl
read_policy-policy_tag tpm_pin = refl

same_policy :
    (key : StoredKey) → record_invalid key ≡ false → key.object.use_policy ≡ key.summary.use_policy
unfolding record_invalid
same_policy key h = ground arith

-- The two copies of the policy in a valid key agree, so the one in the file stands for both.
rebuilt :
    (key : StoredKey)
    → record_invalid key ≡ false
    → key
      ≡ stored_key
          (as_str key.summary.id)
          key.summary.name
          key.summary.algorithm
          key.summary.use_policy
          key.summary.public_key
          key.object.public
          key.object.wrapped_private
          key.object.parent_name
rebuilt key h = λ i. record key { object = record key.object { use_policy = same_policy key h i } }

-- The bytes of a valid key are read back as that key.
pub decode-record_bytes :
    (key : StoredKey)
    → IsTyped key
    → record_invalid key ≡ false
    → decode (record_bytes key) ≡ ok key
unfolding decode decode_tags decode_blobs record_bytes blobs take_bytes take_byte validate_record
decode-record_bytes key typed h =
    let b = valid-IsBounded key h in
    bind-eq _ (split_at-append invalid_record magic _ 8 refl) (
      bind-eq _ (read_text-string (as_str key.summary.id) _ typed.id_text b.id) (
        bind-eq _ (read_text-string key.summary.name _ typed.name_text b.name) (
          bind-eq _ (read_algorithm-algorithm_tag key.summary.algorithm) (
            bind-eq _ (read_policy-policy_tag key.summary.use_policy) (
              bind-eq _
                (read_bytes-string key.summary.public_key _ max_blob_len b.public_key (omega arith))
                (bind-eq _
                  (read_bytes-string key.object.public _ max_blob_len b.public (omega arith))
                  (bind-eq _
                    (read_bytes-string key.object.wrapped_private _ max_blob_len b.wrapped_private
                      (omega arith))
                    (bind-eq _
                      (read_bytes-last key.object.parent_name max_blob_len b.parent_name
                        (omega arith))
                      (subst (λ k. (validate_record k >> ok k) ≡ ok key) (rebuilt key h)
                        (rw h))))))))))

-- ===== src/Protocol/Strings.antt =====
-- Strings of the protocol: the grammar, and what the reader and the writer do with it.
use keyvisor.Wire.Strings.{string}
use keyvisor.Prelude.{
  ℕ, ◌<◌, ◌^◌, ◌≡◌, refl, ◌++◌, length, ok, bind-eq, bind-eq-ok, append_assoc, [], subst,
  append-nil,
}
use keyvisor.Wire.Endian.{Bytes, AreBytes, to_be_bytes}
use keyvisor.Wire.Cursor.{
  split_at-append, split_at-eq-ok, split_at-AreBytes, read_be-append, read_be-eq-ok,
}
use keyvisor.Protocol.Defs.{take_bytes, take_u32, take_string, truncated}

pub take_u32-append :
    (n : ℕ) (rest : Bytes) → n < 2 ^ 32 → take_u32 (to_be_bytes 4 n ++ rest) ≡ ok (n, rest)
unfolding take_u32
take_u32-append n rest h = read_be-append truncated 4 n rest h

pub take_string-append :
    (value rest : Bytes)
    → length value < 2 ^ 32
    → take_string (string value ++ rest) ≡ ok (value, rest)
unfolding take_string
take_string-append value rest h = rw (append_assoc) (
    bind-eq (λ (p : ℕ × Bytes). take_bytes p.1 p.0)
      (take_u32-append (length value) (value ++ rest) h)
      (unfold take_bytes in split_at-append truncated value rest (length value) refl))

-- A string alone leaves nothing.
pub take_string_all :
    (value : Bytes) → length value < 2 ^ 32 → take_string (string value) ≡ ok (value, [])
take_string_all value h =
    subst (λ s. take_string s ≡ ok (value, [])) (append-nil (string value))
      (take_string-append value [] h)

pub take_u32-eq-ok :
    (input : Bytes) {n : ℕ} {rest : Bytes}
    → AreBytes input
    → take_u32 input ≡ ok (n, rest)
    → (input ≡ to_be_bytes 4 n ++ rest) × (n < 2 ^ 32) × AreBytes rest
unfolding take_u32
take_u32-eq-ok input all h = read_be-eq-ok truncated 4 input all h

pub take_string-eq-ok :
    (input : Bytes) {value rest : Bytes}
    → AreBytes input
    → take_string input ≡ ok (value, rest)
    → (input ≡ string value ++ rest) × (length value < 2 ^ 32) × AreBytes value × AreBytes rest
unfolding take_string take_bytes
take_string-eq-ok input {value} {rest} all h =
    let (p, e, e') = bind-eq-ok (take_u32 input) _ h in
    let (joined, fits, all') = take_u32-eq-ok input all e in
    let (joined', len) = split_at-eq-ok truncated p.1 p.0 e' in
    let (hv, hr) = split_at-AreBytes truncated p.1 p.0 all' e' in
    (rw (joined, joined', len) (rw append_assoc), rw len fits, hv, hr)

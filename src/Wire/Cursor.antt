-- ===== src/Wire/Cursor.antt =====
-- The `take` that each decoder of the source has: it splits a slice, or fails with the decoder's
-- own error. `&mut input` is a remaining slice that comes back beside the value.
use keyvisor.Prelude.{
  ℕ, ◌<◌, ◌^◌, ◌≡◌, ◌++◌, arith, length, take, drop, ltb, if◌then◌else◌, Result, ok, err, ◌>>=◌,
  bind-eq, length-append, length-take, take-append, drop-append, take-append-drop, bind-eq-ok,
  All-split, subst,
}
use keyvisor.Wire.Endian.{
  Bytes, AreBytes, to_be_bytes, from_be_bytes, length-to_be_bytes, from_be_bytes-to_be_bytes,
  IsByte, to_be_bytes-from_be_bytes, from_be_bytes-lt,
}

module _ {E : Type 0} (e : E) where
  unfoldable pub split_at : Bytes → ℕ → Result E (Bytes × Bytes)
  split_at input length' =
      if ltb (length input) length' then err e else ok (take length' input, drop length' input)

  pub split_at-append :
      (xs rest : Bytes) (n : ℕ) → length xs ≡ n → split_at (xs ++ rest) n ≡ ok (xs, rest)
  unfolding split_at
  split_at-append xs rest n h =
      rw (← h)
        (rw (take-append xs rest, drop-append xs rest) (ground (arith, length-append xs rest)))

  pub split_at-eq-ok :
      (input : Bytes) (n : ℕ) {value rest : Bytes}
      → split_at input n ≡ ok (value, rest)
      → (input ≡ value ++ rest) × (length value ≡ n)
  unfolding split_at
  split_at-eq-ok input n h = ground (arith, take-append-drop n input, length-take n input)

  pub split_at_short : (input : Bytes) (n : ℕ) → length input < n → split_at input n ≡ err e
  unfolding split_at
  split_at_short input n h = ground arith

  -- `take` of `k` bytes, read as an unsigned integer of that width.
  unfoldable pub read_be : ℕ → Bytes → Result E (ℕ × Bytes)
  unfolding split_at
  read_be k input = do (bytes, rest) ← split_at input k; ok (from_be_bytes bytes, rest)

  pub read_be-append :
      (k n : ℕ) (rest : Bytes) → n < 256 ^ k → read_be k (to_be_bytes k n ++ rest) ≡ ok (n, rest)
  unfolding read_be
  read_be-append k n rest h =
      bind-eq (λ (p : Bytes × Bytes). ok (from_be_bytes p.0, p.1))
        (split_at-append (to_be_bytes k n) rest k (length-to_be_bytes k n))
        (rw (from_be_bytes-to_be_bytes k n h))

  -- What `read_be` has read: a slice, and the number that it spells.
  read_be-split_at :
      (k : ℕ) (input : Bytes) {n : ℕ} {rest : Bytes}
      → read_be k input ≡ ok (n, rest)
      → (bytes : Bytes) × (split_at input k ≡ ok (bytes, rest)) × (n ≡ from_be_bytes bytes)
  unfolding read_be
  read_be-split_at k input h =
      let (p, e, e') = bind-eq-ok (split_at input k) _ h in (p.0, ground arith, ground arith)

  pub read_be-eq-ok :
      (k : ℕ) (input : Bytes) {n : ℕ} {rest : Bytes}
      → AreBytes input
      → read_be k input ≡ ok (n, rest)
      → (input ≡ to_be_bytes k n ++ rest) × (n < 256 ^ k) × AreBytes rest
  read_be-eq-ok k input {n} {rest} all h =
      let (bytes, e, number) = read_be-split_at k input h in
      let (joined, len) = split_at-eq-ok input k e in
      let (hb, hr) = All-split IsByte bytes rest (subst AreBytes joined all) in
      (
        rw (joined, number, ← len, to_be_bytes-from_be_bytes bytes hb),
        rw (number, ← len) (from_be_bytes-lt bytes hb),
        hr,
      )

  pub split_at-AreBytes :
      (input : Bytes) (n : ℕ) {value rest : Bytes}
      → AreBytes input
      → split_at input n ≡ ok (value, rest)
      → AreBytes value × AreBytes rest
  split_at-AreBytes input n {value} {rest} all h =
      All-split IsByte value rest (subst AreBytes ((split_at-eq-ok input n h).0) all)

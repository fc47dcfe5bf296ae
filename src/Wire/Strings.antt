-- ===== src/Wire/Strings.antt =====
-- Length-prefixed byte strings, the one compound format of the program's records and packets.
use keyvisor.Prelude.{
  ◌+◌, ◌^◌, ◌<◌, ◌≡◌, ◌++◌, append_assoc, arith, length, length-append, All-append, ok,
}
use keyvisor.Wire.Endian.{
  Bytes, AreBytes, IsByte, to_be_bytes, length-to_be_bytes, to_be_bytes-AreBytes,
}
use keyvisor.Wire.Cursor.{read_be, read_be-append}

-- `string` of RFC 4251: the length as four bytes, then the bytes.
abbrev pub string : Bytes → Bytes
string value = to_be_bytes 4 (length value) ++ value

pub length-string : (value : Bytes) → length (string value) ≡ 4 + length value
length-string value = omega (
  arith,
  length-append {0} (to_be_bytes 4 (length value)) value,
  length-to_be_bytes 4 (length value),
)

pub string-AreBytes : (value : Bytes) → AreBytes value → AreBytes (string value)
string-AreBytes value all =
    All-append IsByte (to_be_bytes 4 (length value)) value (to_be_bytes-AreBytes 4 (length value))
      all

pub read_be-string :
    {E : Type 0} (e : E) (value rest : Bytes)
    → length value < 2 ^ 32
    → read_be e 4 (string value ++ rest) ≡ ok (length value, value ++ rest)
read_be-string e value rest h =
    rw (append_assoc) (read_be-append e 4 (length value) (value ++ rest) h)

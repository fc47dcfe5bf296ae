-- ===== src/Store/Names.antt =====
-- `file_stem` and `path_for`: the file name of a key.
use keyvisor.Prelude.{◌≡◌, sym, ap, ◌∙◌, ◌++◌, All, ok-injective}
use keyvisor.Wire.Endian.{Bytes, AreBytes}
use keyvisor.Wire.Hex.{hex, unhex, unhex-hex, hex-AreHexDigits, IsHexDigit}
use keyvisor.Wire.Utf8.{codes}
use keyvisor.Core.{KeyId, as_str}

unfoldable pub file_stem : KeyId → Bytes
file_stem id = hex (as_str id)

-- The name of the record file in the store's directory.
unfoldable pub file_name : KeyId → Bytes
file_name id = file_stem id ++ codes ".key"

-- The name of a file is made of hexadecimal digits and the extension, whatever bytes the identifier
-- holds, so it has no path separator; and two identifiers have two files.
pub file_stem-injective :
    (id other : KeyId)
    → AreBytes (as_str id)
    → AreBytes (as_str other)
    → All IsHexDigit (file_stem id) × (file_stem id ≡ file_stem other → id ≡ other)
unfolding file_stem
file_stem-injective id other all all' = (
  hex-AreHexDigits (as_str id) all,
  λ e.
      ap (λ v. record { value = v })
        (ok-injective {E = Unit {0}} (
          sym (unhex-hex tt (as_str id) all) ∙ ap (unhex tt) e ∙ unhex-hex tt (as_str other) all')),
)

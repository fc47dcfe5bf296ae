-- ===== src/Tpm/Connect.antt =====
-- `EsapiTpm::connect` and `connect_default`.
use keyvisor.Tpm.Defs.{TpmError, unavailable}
use keyvisor.Tpm.Esapi.{from_tss}
use keyvisor.Wire.Utf8.{codes, is_utf8}
use keyvisor.Files.Environment.{Environment}
use keyvisor.Wire.Endian.{Bytes}
use keyvisor.Tpm.Tss.{Tss, TssError, Call, map_tss_error}
use keyvisor.Prelude.{
  ℕ, Bool, not, Option, none, some, if◌then◌else◌, Result, ok, ◌>>=◌, ◌>>◌, fail_if, map_err,
}

-- What the library does before there is a context that is used: whether a TCTI text is one, the
-- context that it opens, the template of the storage parent, and the primary key under the owner
-- hierarchy in a session without authorization.
pub record Opening (t : Tss) : Type 0 where
  pub is_tcti : Bytes → Bool
  pub new_context : Bytes → Result TssError t.State
  pub parent_public : Result TssError (Unit {0})
  pub create_primary : Call t.State ℕ

abbrev pub default_tcti : Bytes
default_tcti = codes "device:/dev/tpmrm0"

-- `env::var`: a variable that is set to a text.
unfoldable pub text_variable : Environment → Bytes → Option Bytes
text_variable environment name = elim (environment name) [
  | none ↦ none
  | some value ↦ if is_utf8 value then some value else none
]

unfoldable pub or_else : Option Bytes → Bytes → Bytes
or_else none other = other
or_else (some value) other = value

unfoldable pub chosen_tcti : Environment → Bytes
unfolding text_variable or_else
chosen_tcti environment = or_else (text_variable environment (codes "TPM2TOOLS_TCTI")) (
    or_else (text_variable environment (codes "TCTI"))
      (or_else (text_variable environment (codes "TEST_TCTI")) default_tcti))

module _ (t : Tss) (opening : Opening t) where
  -- The context, the handle of the storage parent and its name.
  unfoldable pub find_parent : t.State → Result TpmError (t.State × ℕ × Bytes)
  unfolding from_tss
  find_parent s =
      let (parent, s₁) = from_tss t (opening.create_primary s) in
      parent >>= λ handle.
      let (name, s₂) = from_tss t (t.tr_get_name handle s₁) in
      name >>= λ parent_name. ok (s₂, handle, parent_name)

  unfoldable pub connect : Bytes → Result TpmError (t.State × ℕ × Bytes)
  unfolding find_parent
  connect tcti = do
    fail_if (not (opening.is_tcti tcti)) unavailable
    s ← map_err map_tss_error (opening.new_context tcti)
    map_err map_tss_error opening.parent_public
    find_parent s

  unfoldable pub connect_default : Environment → Result TpmError (t.State × ℕ × Bytes)
  unfolding connect chosen_tcti
  connect_default environment = connect (chosen_tcti environment)

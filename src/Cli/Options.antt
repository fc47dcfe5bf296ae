-- ===== src/Cli/Options.antt =====
-- What the arguments of `key create` are, beside the loop that reads them.
use keyvisor.Cli.Defs.{not_utf8}
use keyvisor.Core.{ecdsa_nist_p256, ecdsa_nist_p384, no_pin, tpm_pin}
use keyvisor.Cli.Arguments.{
  auto, create_options, set_input, set_flag, valued_option, Valued, set_secret_input, set_value,
  os_text,
}
use keyvisor.Wire.Trim.{trim}
use keyvisor.Wire.Utf8.{codes, is_utf8, from_utf8-IsText}
use keyvisor.Cli.Arguments.{CreateOptions, SecretInput, stdin, pinentry, terminal}
use keyvisor.Core.{KeyAlgorithm, KeyUsePolicy}
use keyvisor.Wire.Endian.{Bytes}
use keyvisor.Prelude.{
  ◌≡◌, refl, ap, ◌∙◌, inl, inr, true, Option, none, some, List, [], ◌∷◌, arith, if◌then◌else◌, ok,
  bind-eq, some-injective, if-cases,
}

-- A setting that the caller writes as one argument or as two.
pub data Setting : Type 0 where
  named : Bytes → Setting
  with_algorithm : KeyAlgorithm → Setting
  with_policy : KeyUsePolicy → Setting
  confirm : Setting
  from_stdin from_pinentry from_terminal : Setting

abbrev pub algorithm_word : KeyAlgorithm → Bytes
algorithm_word ecdsa_nist_p256 = codes "ecdsa-p256"
algorithm_word ecdsa_nist_p384 = codes "ecdsa-p384"

abbrev pub policy_word : KeyUsePolicy → Bytes
policy_word no_pin = codes "none"
policy_word tpm_pin = codes "pin"

abbrev pub written : Setting → List Bytes → List Bytes
written (named name) rest = codes "--name" ∷ name ∷ rest
written (with_algorithm algorithm) rest = codes "--algorithm" ∷ algorithm_word algorithm ∷ rest
written (with_policy policy) rest = codes "--authorization" ∷ policy_word policy ∷ rest
written confirm rest = codes "--yes" ∷ rest
written from_stdin rest = codes "--pin-stdin" ∷ rest
written from_pinentry rest = codes "--pinentry" ∷ rest
written from_terminal rest = codes "--terminal" ∷ rest

abbrev pub all_written : List Setting → List Bytes
all_written [] = []
all_written (setting ∷ settings) = written setting (all_written settings)

-- A source of the PIN can be chosen once.
abbrev pub chosen : CreateOptions → SecretInput → Option CreateOptions
chosen options input = elim options.secret_input [
  | auto ↦ some (record options { secret_input = input })
  | _ ↦ none
]

-- What a setting does; a name must be a text.
abbrev pub apply : CreateOptions → Setting → Option CreateOptions
apply options (named name) =
    if is_utf8 name then some (record options { name = some (trim name) }) else none
apply options (with_algorithm algorithm) = some (record options { algorithm = algorithm })
apply options (with_policy policy) = some (record options { policy = some policy })
apply options confirm = some (record options { confirmed = true })
apply options from_stdin = chosen options stdin
apply options from_pinentry = chosen options pinentry
apply options from_terminal = chosen options terminal

abbrev pub apply_all : CreateOptions → List Setting → Option CreateOptions
apply_all options [] = some options
apply_all options (setting ∷ settings) = elim (apply options setting) [
  | none ↦ none
  | some options' ↦ apply_all options' settings
]

flag_step :
    (options : CreateOptions) (flag : Bytes) (rest : List Bytes) {options' : CreateOptions}
    → valued_option flag ≡ none
    → set_flag options flag ≡ ok options'
    → create_options options (flag ∷ rest) ≡ create_options options' rest
unfolding create_options
flag_step options flag [] h made = made
flag_step options flag (value ∷ rest) h made =
    rw (create_options, h) (bind-eq (λ o. create_options o (value ∷ rest)) made refl)

value_step :
    (options : CreateOptions) (flag value : Bytes) (rest : List Bytes) {option : Valued}
    {options' : CreateOptions}
    → valued_option flag ≡ some option
    → set_value option options value ≡ ok options'
    → create_options options (flag ∷ value ∷ rest) ≡ create_options options' rest
unfolding create_options
value_step options flag value rest h made =
    rw (create_options, h) (bind-eq (λ o. create_options o rest) made refl)

set_input-chosen :
    (options : CreateOptions) (input : SecretInput) {options' : CreateOptions}
    → chosen options input ≡ some options'
    → set_input options input ≡ ok options'
unfolding set_input set_secret_input
set_input-chosen options input h = ground arith

pub chosen-set_input :
    (options : CreateOptions) (input : SecretInput) {options' : CreateOptions}
    → set_input options input ≡ ok options'
    → chosen options input ≡ some options'
unfolding set_input set_secret_input
chosen-set_input options input h = ground arith

set_value-named :
    (options : CreateOptions) (name : Bytes) {options' : CreateOptions}
    → apply options (named name) ≡ some options'
    → set_value keyvisor.Cli.Arguments.name_option options name ≡ ok options'
unfolding set_value os_text
set_value-named options name h = elim (if-cases (is_utf8 name) h) [
  | inl (e, made) ↦
      bind-eq (λ text. ok (record options { name = some (trim text) }))
        (from_utf8-IsText not_utf8 name e) (ap ok (some-injective made))
  | inr (e, failed) ↦ cc
]

-- The loop reads what is written for a setting that applies.
create_options-written :
    (options : CreateOptions) (setting : Setting) (rest : List Bytes) {options' : CreateOptions}
    → apply options setting ≡ some options'
    → create_options options (written setting rest) ≡ create_options options' rest
unfolding set_flag set_value os_text valued_option
create_options-written options (named name) rest h =
    value_step options (codes "--name") name rest refl (set_value-named options name h)
create_options-written options (with_algorithm ecdsa_nist_p256) rest h =
    value_step options (codes "--algorithm") (codes "ecdsa-p256") rest refl
      (ap ok (some-injective h))
create_options-written options (with_algorithm ecdsa_nist_p384) rest h =
    value_step options (codes "--algorithm") (codes "ecdsa-p384") rest refl
      (ap ok (some-injective h))
create_options-written options (with_policy no_pin) rest h =
    value_step options (codes "--authorization") (codes "none") rest refl (ap ok (some-injective h))
create_options-written options (with_policy tpm_pin) rest h =
    value_step options (codes "--authorization") (codes "pin") rest refl (ap ok (some-injective h))
create_options-written options confirm rest h =
    flag_step options (codes "--yes") rest refl (ap ok (some-injective h))
create_options-written options from_stdin rest h =
    flag_step options (codes "--pin-stdin") rest refl (set_input-chosen options stdin h)
create_options-written options from_pinentry rest h =
    flag_step options (codes "--pinentry") rest refl (set_input-chosen options pinentry h)
create_options-written options from_terminal rest h =
    flag_step options (codes "--terminal") rest refl (set_input-chosen options terminal h)

apply_first :
    (first : Option CreateOptions) (settings : List Setting) {final : CreateOptions}
    → ◌≡◌ {A = Option CreateOptions}
        (elim first [ none ↦ none | some options' ↦ apply_all options' settings ])
        (some final)
    → (options' : CreateOptions) × (first ≡ some options')
      × (apply_all options' settings ≡ some final)
apply_first none settings h = cc
apply_first (some options') settings h = (options', refl, h)

pub create_options_complete :
    (settings : List Setting) (options : CreateOptions) {final : CreateOptions}
    → apply_all options settings ≡ some final
    → create_options options (all_written settings) ≡ ok final
create_options_complete [] options h = unfold create_options in ap ok (some-injective h)
create_options_complete (setting ∷ settings) options h =
    let (options', e, rest) = apply_first (apply options setting) settings h in
    create_options-written options setting (all_written settings) e
    ∙ create_options_complete settings options' rest

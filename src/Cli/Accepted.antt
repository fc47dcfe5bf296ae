-- ===== src/Cli/Accepted.antt =====
-- The arguments of `key create` that are accepted.
use keyvisor.Cli.Options.{confirm}
use keyvisor.Wire.Trim.{trim}
use keyvisor.Cli.Defs.{not_utf8}
use keyvisor.Wire.Utf8.{codes, from_utf8, from_utf8-eq-ok}
use keyvisor.Cli.Options.{
  Setting, written, all_written, apply, create_options_complete, from_stdin, algorithm_word,
  policy_word, apply_all, chosen-set_input, named, from_pinentry, with_algorithm, from_terminal,
  with_policy,
}
use keyvisor.Wire.Endian.{Bytes}
use keyvisor.Cli.Arguments.{
  CreateOptions, set_flag, Valued, valued_option, parse_algorithm, parse_authorization, set_value,
  create_options, os_text, stdin, pinentry, terminal,
}
use keyvisor.Prelude.{
  ◌≡◌, refl, ap, ◌∙◌, subst, ◌↔◌, inl, inr, true, Option, none, some, List, [], ◌∷◌, bytes_eq,
  bytes_eq_sound, ok, ◌>>=◌, bind-eq-ok, ok-injective, some-injective, if-cases,
}
use keyvisor.Core.{KeyAlgorithm, KeyUsePolicy}

-- A setting that stands for the first argument, or the first two.
abbrev IsAlone : CreateOptions → Bytes → CreateOptions → Type 0
IsAlone options flag options' =
    (setting : Setting) × ((rest : List Bytes) → flag ∷ rest ≡ written setting rest)
    × (apply options setting ≡ some options')

alone :
    (options : CreateOptions) (setting : Setting) (flag word : Bytes) {options' : CreateOptions}
    → bytes_eq flag word ≡ true
    → ((rest : List Bytes) → word ∷ rest ≡ written setting rest)
    → apply options setting ≡ some options'
    → IsAlone options flag options'
alone options setting flag word e shape done =
    (setting, (λ rest. ap (λ f. f ∷ rest) (bytes_eq_sound flag word e) ∙ shape rest), done)

set_flag-IsAlone :
    (options : CreateOptions) (flag : Bytes) {options' : CreateOptions}
    → set_flag options flag ≡ ok options'
    → IsAlone options flag options'
unfolding set_flag
set_flag-IsAlone options flag h = elim (if-cases (bytes_eq flag (codes "--yes")) h) [
  | inl (e, made) ↦
      alone options confirm flag (codes "--yes") e (λ r. refl) (ap some (ok-injective made))
  | inr (e₁, h₁) ↦ elim (if-cases (bytes_eq flag (codes "--pin-stdin")) h₁) [
    | inl (e, made) ↦
        alone options from_stdin flag (codes "--pin-stdin") e (λ r. refl)
          (chosen-set_input options stdin made)
    | inr (e₂, h₂) ↦ elim (if-cases (bytes_eq flag (codes "--pinentry")) h₂) [
      | inl (e, made) ↦
          alone options from_pinentry flag (codes "--pinentry") e (λ r. refl)
            (chosen-set_input options pinentry made)
      | inr (e₃, h₃) ↦ elim (if-cases (bytes_eq flag (codes "--terminal")) h₃) [
        | inl (e, made) ↦
            alone options from_terminal flag (codes "--terminal") e (λ r. refl)
              (chosen-set_input options terminal made)
        | inr (e₄, h₄) ↦ cc
      ]
    ]
  ]
]

abbrev word : Valued → Bytes
word keyvisor.Cli.Arguments.name_option = codes "--name"
word keyvisor.Cli.Arguments.algorithm_option = codes "--algorithm"
word keyvisor.Cli.Arguments.authorization_option = codes "--authorization"

valued_option-word :
    (flag : Bytes) (option : Valued) → valued_option flag ≡ some option → flag ≡ word option
unfolding valued_option
valued_option-word flag option h = elim (if-cases (bytes_eq flag (codes "--name")) h) [
  | inl (e, o) ↦ bytes_eq_sound _ _ e ∙ ap word (some-injective o)
  | inr (e₁, h₁) ↦ elim (if-cases (bytes_eq flag (codes "--algorithm")) h₁) [
    | inl (e, o) ↦ bytes_eq_sound _ _ e ∙ ap word (some-injective o)
    | inr (e₂, h₂) ↦ elim (if-cases (bytes_eq flag (codes "--authorization")) h₂) [
      | inl (e, o) ↦ bytes_eq_sound _ _ e ∙ ap word (some-injective o)
      | inr (e₃, h₃) ↦ cc
    ]
  ]
]

-- The setting of an option with its value.
abbrev IsPair : CreateOptions → Bytes → Bytes → CreateOptions → Type 0
IsPair options flag value options' =
    (setting : Setting) × ((rest : List Bytes) → flag ∷ value ∷ rest ≡ written setting rest)
    × (apply options setting ≡ some options')

algorithm_of :
    (value : Bytes) {algorithm : KeyAlgorithm}
    → parse_algorithm value ≡ ok algorithm
    → value ≡ algorithm_word algorithm
unfolding parse_algorithm
algorithm_of value h = elim (if-cases (bytes_eq value (codes "ecdsa-p256")) h) [
  | inl (e, o) ↦ bytes_eq_sound _ _ e ∙ ap algorithm_word (ok-injective o)
  | inr (e₁, h₁) ↦ elim (if-cases (bytes_eq value (codes "ecdsa-p384")) h₁) [
    | inl (e, o) ↦ bytes_eq_sound _ _ e ∙ ap algorithm_word (ok-injective o)
    | inr (e₂, h₂) ↦ cc
  ]
]

policy_of :
    (value : Bytes) {policy : KeyUsePolicy}
    → parse_authorization value ≡ ok policy
    → value ≡ policy_word policy
unfolding parse_authorization
policy_of value h = elim (if-cases (bytes_eq value (codes "none")) h) [
  | inl (e, o) ↦ bytes_eq_sound _ _ e ∙ ap policy_word (ok-injective o)
  | inr (e₁, h₁) ↦ elim (if-cases (bytes_eq value (codes "pin")) h₁) [
    | inl (e, o) ↦ bytes_eq_sound _ _ e ∙ ap policy_word (ok-injective o)
    | inr (e₂, h₂) ↦ cc
  ]
]

pair :
    (options : CreateOptions) (setting : Setting) (flag value : Bytes) (option : Valued)
    {value' : Bytes} {options' : CreateOptions}
    → valued_option flag ≡ some option
    → value ≡ value'
    → ((rest : List Bytes) → word option ∷ value' ∷ rest ≡ written setting rest)
    → apply options setting ≡ some options'
    → IsPair options flag value options'
pair options setting flag value option e v shape done = (
  setting,
  (λ rest.
      ap (λ f. f ∷ value ∷ rest) (valued_option-word flag option e)
      ∙ ap (λ w. word option ∷ w ∷ rest) v
      ∙ shape rest),
  done,
)

set_value-IsPair :
    (options : CreateOptions) (flag value : Bytes) (option : Valued) {options' : CreateOptions}
    → valued_option flag ≡ some option
    → set_value option options value ≡ ok options'
    → IsPair options flag value options'
unfolding set_value os_text
set_value-IsPair options flag value keyvisor.Cli.Arguments.name_option {options'} e made =
    let (text, read, h) = bind-eq-ok (from_utf8 not_utf8 value) _ made in
    let (valid, same) = from_utf8-eq-ok not_utf8 value read in
    pair options (named value) flag value keyvisor.Cli.Arguments.name_option e refl (λ rest. refl)
      (rw (valid) (
        ap some
          (subst (λ t. record options { name = some (trim t) } ≡ options') same (ok-injective h))))
set_value-IsPair options flag value keyvisor.Cli.Arguments.algorithm_option e made =
    let (algorithm, read, h) = bind-eq-ok (parse_algorithm value) _ made in
    pair options (with_algorithm algorithm) flag value keyvisor.Cli.Arguments.algorithm_option e
      (algorithm_of value read) (λ rest. refl) (ap some (ok-injective h))
set_value-IsPair options flag value keyvisor.Cli.Arguments.authorization_option e made =
    let (policy, read, h) = bind-eq-ok (parse_authorization value) _ made in
    pair options (with_policy policy) flag value keyvisor.Cli.Arguments.authorization_option e
      (policy_of value read) (λ rest. refl) (ap some (ok-injective h))

-- Every argument list that the loop accepts is written by settings that apply.
abbrev pub IsWritten : CreateOptions → List Bytes → CreateOptions → Type 0
IsWritten options arguments final =
    (settings : List Setting) × (arguments ≡ all_written settings)
    × (apply_all options settings ≡ some final)

apply_all_step :
    (options : CreateOptions) (setting : Setting) (settings : List Setting)
    {options' final : CreateOptions}
    → apply options setting ≡ some options'
    → apply_all options' settings ≡ some final
    → apply_all options (setting ∷ settings) ≡ some final
apply_all_step options setting settings {options'} {final} done h =
    step (apply options setting) done
  where
    step :
        (first : Option CreateOptions)
        → first ≡ some options'
        → ◌≡◌ {A = Option CreateOptions}
            (elim first [ none ↦ none | some o ↦ apply_all o settings ])
            (some final)
    step none e = cc
    step (some o) e = ap (λ o. apply_all o settings) (some-injective e) ∙ h

module _ (final : CreateOptions) (flag value : Bytes) (rest : List Bytes)
    (after_flag : (options : CreateOptions)
      → create_options options (value ∷ rest) ≡ ok final
      → IsWritten options (value ∷ rest) final)
    (after_value : (options : CreateOptions)
      → create_options options rest ≡ ok final
      → IsWritten options rest final) where
  two_arguments :
      (options : CreateOptions) (o : Option Valued)
      → valued_option flag ≡ o
      → (elim o [
        | some option ↦ set_value option options value >>= λ options'. create_options options' rest
        | none ↦ set_flag options flag >>= λ options'. create_options options' (value ∷ rest)
      ])
        ≡ ok final
      → IsWritten options (flag ∷ value ∷ rest) final
  two_arguments options none e h =
      let (options', made, h') = bind-eq-ok (set_flag options flag) _ h in
      let (setting, shape, done) = set_flag-IsAlone options flag made in
      let (settings, same, all) = after_flag options' h' in
      (
        setting ∷ settings,
        shape (value ∷ rest) ∙ ap (written setting) same,
        apply_all_step options setting settings done all,
      )
  two_arguments options (some option) e h =
      let (options', made, h') = bind-eq-ok (set_value option options value) _ h in
      let (setting, shape, done) = set_value-IsPair options flag value option e made in
      let (settings, same, all) = after_value options' h' in
      (
        setting ∷ settings,
        shape rest ∙ ap (written setting) same,
        apply_all_step options setting settings done all,
      )

create_options_sound :
    (options : CreateOptions) (arguments : List Bytes) {final : CreateOptions}
    → create_options options arguments ≡ ok final
    → IsWritten options arguments final
unfolding create_options
create_options_sound options [] h = ([], refl, ap some (ok-injective h))
create_options_sound options (flag ∷ []) h =
    let (setting, shape, done) = set_flag-IsAlone options flag h in
    (setting ∷ [], shape [], apply_all_step options setting [] done refl)
create_options_sound options (flag ∷ value ∷ rest) {final} h =
    two_arguments final flag value rest (λ o. create_options_sound o (value ∷ rest))
      (λ o. create_options_sound o rest) options (valued_option flag) refl h

-- The loop over the arguments of `key create` accepts exactly the sequences of the settings that
-- apply one after the other, each a flag or an option with its value, and ends with what they set:
-- a name is a text and is trimmed, the last of several values holds, and the source of the PIN is
-- chosen once.
pub create_options_iff :
    (options final : CreateOptions) (arguments : List Bytes)
    → (create_options options arguments ≡ ok final) ↔ IsWritten options arguments final
create_options_iff options final arguments = (
  create_options_sound options arguments,
  λ (settings, same, all).
      ap (create_options options) same ∙ create_options_complete settings options all,
)

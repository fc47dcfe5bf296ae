-- ===== src/Config/Settings.antt =====
-- `get` and `set`.
use keyvisor.Wire.Utf8.{codes}
use keyvisor.Prelude.{
  ℕ, ◌≤◌, ◌≡◌, subst, ◌≢◌, ◌⊎◌, inl, inr, some, arith, Bool-cases, Option-cases, bytes_eq,
  bytes_eq_sound, ok,
}
use keyvisor.Wire.Endian.{Bytes}
use keyvisor.Wire.Decimal.{u64_max, to_string, parse_u64, parse-to_string}
use keyvisor.Config.Defs.{
  Config, get, set, timeout_name, history_name, min_authorization_timeout_seconds,
  max_authorization_timeout_seconds, bool_to_string,
}

-- The bounds on the timeout that `set` keeps.
pub record IsValid (config : Config) : Type 0 where
  pub at_least : min_authorization_timeout_seconds ≤ config.authorization_timeout_seconds
  pub at_most : config.authorization_timeout_seconds ≤ max_authorization_timeout_seconds

-- A setting that is set leaves the settings valid and every other setting as it was.
pub set-IsValid :
    (config : Config) (name value : Bytes) (config' : Config)
    → set config name value ≡ ok config'
    → IsValid config
    → IsValid config' × ((other : Bytes) → other ≢ name → get config' other ≡ get config other)
unfolding set get
set-IsValid config name value config' h valid = (
  ground arith,
  λ other ne. ground (
    arith,
    bytes_eq_sound name timeout_name,
    bytes_eq_sound name history_name,
    bytes_eq_sound other timeout_name,
    bytes_eq_sound other history_name,
  ),
)

pub parse-timeout :
    (config : Config)
    → IsValid config
    → parse_u64 (to_string config.authorization_timeout_seconds)
      ≡ some config.authorization_timeout_seconds
unfolding parse_u64
parse-timeout config valid =
    parse-to_string u64_max config.authorization_timeout_seconds (omega (arith, valid.at_most))

-- The value that `get` prints of valid settings is accepted by `set` in any settings, and `get`
-- prints it again.
pub get-set :
    (config target : Config) (name value : Bytes)
    → IsValid config
    → get config name ≡ some value
    → (target' : Config) × (set target name value ≡ ok target') × (get target' name ≡ some value)
unfolding get set bool_to_string
get-set config target name value valid h = elim (Bool-cases (bytes_eq name timeout_name)) [
  | inl e ↦ (
    record target { authorization_timeout_seconds = config.authorization_timeout_seconds },
    ground (arith, parse-timeout config valid),
    ground arith,
  )
  | inr e ↦ (record target { history_enabled = config.history_enabled }, ground arith, ground arith)
]

-- What is shown of a value that was set: of the history setting the value itself, which is `true` or
-- `false`; of the timeout the number that the value reads as, from 10 to 120, without a sign or
-- leading zeros.
abbrev pub IsShown : Bytes → Bytes → Bytes → Type 0
IsShown name value text =
    ((name ≡ history_name) × ((value ≡ codes "true") ⊎ (value ≡ codes "false")) × (text ≡ value))
    ⊎ (name ≡ timeout_name)
      × ((n : ℕ) × (parse_u64 value ≡ some n) × (10 ≤ n) × (n ≤ 120) × (text ≡ to_string n))

set-IsShown_timeout :
    (config : Config) (value : Bytes) (config' : Config) (text : Bytes)
    → set config timeout_name value ≡ ok config'
    → get config' timeout_name ≡ some text
    → (n : ℕ) × (parse_u64 value ≡ some n) × (10 ≤ n) × (n ≤ 120) × (text ≡ to_string n)
unfolding set get
set-IsShown_timeout config value config' text h shown = elim (Option-cases (parse_u64 value)) [
  | inl e ↦ absurd (ground (arith, e))
  | inr (n, e) ↦ (n, e, ground (arith, e), ground (arith, e), ground (arith, e))
]

set-IsShown_history :
    (config : Config) (value : Bytes) (config' : Config) (text : Bytes)
    → set config history_name value ≡ ok config'
    → get config' history_name ≡ some text
    → ((value ≡ codes "true") ⊎ (value ≡ codes "false")) × (text ≡ value)
unfolding set get bool_to_string
set-IsShown_history config value config' text h shown =
    elim (Bool-cases (bytes_eq value (codes "true"))) [
      | inl v ↦
          let same = bytes_eq_sound value (codes "true") v in (inl same, ground (arith, v, same))
      | inr v ↦ elim (Bool-cases (bytes_eq value (codes "false"))) [
        | inl u ↦
            let same = bytes_eq_sound value (codes "false") u in
            (inr same, ground (arith, v, u, same))
        | inr u ↦ absurd (ground (arith, v, u))
      ]
    ]

-- A setting that was set is shown as what it was set to.
pub set-IsShown :
    (config : Config) (name value : Bytes) (config' : Config) (text : Bytes)
    → set config name value ≡ ok config'
    → get config' name ≡ some text
    → IsShown name value text
unfolding set
set-IsShown config name value config' text h shown =
    elim (Bool-cases (bytes_eq name timeout_name)) [
      | inl e ↦
          let same = bytes_eq_sound name timeout_name e in
          inr (
            same,
            set-IsShown_timeout config value config' text
                (subst (λ n. set config n value ≡ ok config') same h)
                (subst (λ n. get config' n ≡ some text) same shown),
          )
      | inr e ↦ elim (Bool-cases (bytes_eq name history_name)) [
        | inl e' ↦
            let same = bytes_eq_sound name history_name e' in
            let (choice, printed) =
              set-IsShown_history config value config' text
                (subst (λ n. set config n value ≡ ok config') same h)
                (subst (λ n. get config' n ≡ some text) same shown) in
            inl (same, choice, printed)
        | inr e' ↦ absurd (ground (arith, e, e'))
      ]
    ]

-- ===== src/Config/Defs.antt =====
-- The settings, and the text of the configuration file.
use keyvisor.Files.Defs.{IoError}
use keyvisor.Prelude.{
  ℕ, Bool, true, false, not, ◌&&◌, ◌||◌, Option, none, some, List, [], ◌∷◌, ◌++◌, leb,
  if◌then◌else◌, bytes_eq, Result, ok, err, ◌>>=◌, ◌>>◌, fail_if, map_err,
}
use keyvisor.Wire.Endian.{Bytes}
use keyvisor.Wire.Utf8.{codes}
use keyvisor.Wire.Decimal.{to_string, parse_u64}
use keyvisor.Wire.Lines.{lines, split_once, newline}

abbrev pub magic : Bytes
magic = codes "KEYVISOR-CONFIG-1"

abbrev pub default_authorization_timeout_seconds : ℕ
default_authorization_timeout_seconds = 120

abbrev pub min_authorization_timeout_seconds : ℕ
min_authorization_timeout_seconds = 10

abbrev pub max_authorization_timeout_seconds : ℕ
max_authorization_timeout_seconds = 120

abbrev pub timeout_name : Bytes
timeout_name = codes "authorization-timeout-seconds"

abbrev pub history_name : Bytes
history_name = codes "history-enabled"

pub record Config : Type 0 where
  pub authorization_timeout_seconds : ℕ
  pub history_enabled : Bool

abbrev pub default : Config
default = record {
  authorization_timeout_seconds = default_authorization_timeout_seconds;
  history_enabled = true;
}

pub data ConfigError : Type 0 where
  io : IoError → ConfigError
  invalid_data invalid_value : ConfigError

unfoldable pub bool_to_string : Bool → Bytes
bool_to_string true = codes "true"
bool_to_string false = codes "false"

unfoldable pub get : Config → Bytes → Option Bytes
get config name =
    if bytes_eq name timeout_name
    then some (to_string config.authorization_timeout_seconds)
    else if bytes_eq name history_name
    then some (bool_to_string config.history_enabled)
    else none

set_timeout : Config → Option ℕ → Result ConfigError Config
set_timeout config none = err invalid_value
set_timeout config (some seconds) =
    if leb min_authorization_timeout_seconds seconds
      && leb seconds max_authorization_timeout_seconds
    then ok (record config { authorization_timeout_seconds = seconds })
    else err invalid_value

set_history : Config → Bytes → Result ConfigError Config
set_history config value =
    if bytes_eq value (codes "true")
    then ok (record config { history_enabled = true })
    else if bytes_eq value (codes "false")
    then ok (record config { history_enabled = false })
    else err invalid_value

-- `&mut self` is the result; on an error the settings are as they were.
unfoldable pub set : Config → Bytes → Bytes → Result ConfigError Config
unfolding set_timeout set_history
set config name value =
    if bytes_eq name timeout_name
    then set_timeout config (parse_u64 value)
    else if bytes_eq name history_name
    then set_history config value
    else err invalid_value

unfoldable pub split_line : Bytes → Result ConfigError (Bytes × Bytes)
split_line line = elim (split_once b'=' line) [ none ↦ err invalid_data | some p ↦ ok p ]

-- The arms of the match on the name: each setting may be seen once.
unfoldable pub mark_seen : Bytes → Bool → Bool → Result ConfigError (Bool × Bool)
mark_seen name timeout_seen history_seen =
    if bytes_eq name timeout_name && not timeout_seen
    then ok (true, history_seen)
    else if bytes_eq name history_name && not history_seen
    then ok (timeout_seen, true)
    else err invalid_data

-- The loop over the lines after the first.
unfoldable pub parse_lines : Config → Bool → Bool → List Bytes → Result ConfigError Config
parse_lines config timeout_seen history_seen [] = do
  fail_if (not timeout_seen || not history_seen) invalid_data
  ok config
parse_lines config timeout_seen history_seen (line ∷ rest) = do
  (name, value) ← split_line line
  (timeout_seen', history_seen') ← mark_seen name timeout_seen history_seen
  config' ← map_err (λ _. invalid_data) (set config name value)
  parse_lines config' timeout_seen' history_seen' rest

unfoldable pub parse_all : List Bytes → Result ConfigError Config
parse_all [] = err invalid_data
parse_all (line ∷ rest) =
    if bytes_eq line magic then parse_lines default false false rest else err invalid_data

unfoldable pub parse : Bytes → Result ConfigError Config
unfolding parse_lines parse_all split_line mark_seen
parse contents = parse_all (lines contents)

-- What the three `writeln!` of `save` write.
unfoldable pub print : Config → Bytes
print config =
    magic
    ++ newline
      ∷ ((timeout_name ++ b'=' ∷ to_string config.authorization_timeout_seconds)
          ++ newline
            ∷ ((history_name ++ b'=' ∷ bool_to_string config.history_enabled) ++ newline ∷ []))

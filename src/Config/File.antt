-- ===== src/Config/File.antt =====
-- The file of `save`, read by `load`.
use keyvisor.Prelude.{
  ℕ, ◌+◌, ◌<◌, ◌≡◌, refl, ap, ◌∙◌, ◌⊎◌, inl, inr, Bool, true, false, List, [], ◌∷◌, ◌++◌, arith,
  if◌then◌else◌, Bool-cases, length, All, All-append, bytes_eq, bytes_eq_sound, ok, map_err,
  bind-eq, bind-eq-ok,
}
use keyvisor.Wire.Endian.{Bytes}
use keyvisor.Wire.Lines.{
  lines, newline, lines-append, split_once-append, Lacks, IsLine, carriage_return,
}
use keyvisor.Wire.Decimal.{to_string, to_string-AreDigits, IsDigit}
use keyvisor.Config.Defs.{
  Config, default, print, parse, set, magic, timeout_name, history_name, parse_lines,
  bool_to_string, invalid_data, split_line, mark_seen, parse_all,
}
use keyvisor.Config.Settings.{IsValid, set-IsValid, parse-timeout}

digits-Lack : (c : ℕ) (s : Bytes) → (c < b'0') ⊎ (b'9' < c) → All IsDigit s → Lacks c s
digits-Lack c [] h all = tt
digits-Lack c (d ∷ s) h (hd, hs) = (ground arith, digits-Lack c s h hs)

timeout_line : Config → Bytes
timeout_line config = timeout_name ++ b'=' ∷ to_string config.authorization_timeout_seconds

history_line : Config → Bytes
history_line config = history_name ++ b'=' ∷ bool_to_string config.history_enabled

timeout_line-IsLine : (config : Config) → IsLine (timeout_line config)
unfolding timeout_line
timeout_line-IsLine config =
    let value = to_string config.authorization_timeout_seconds in
    let digit = to_string-AreDigits config.authorization_timeout_seconds in
    let head = timeout_name ++ b'=' ∷ [] in
    (
      All-append _ head value (omega arith) (digits-Lack newline value (inl (omega arith)) digit),
      All-append _ head value (omega arith)
          (digits-Lack carriage_return value (inl (omega arith)) digit),
    )

history_line-IsLine : (config : Config) → IsLine (history_line config)
unfolding history_line bool_to_string
history_line-IsLine config = elim (Bool-cases config.history_enabled) [
  | inl e ↦ rw e (omega arith, omega arith)
  | inr e ↦ rw e (omega arith, omega arith)
]

-- The lines of a printed file.
lines-print :
    (config : Config)
    → lines (print config) ≡ magic ∷ timeout_line config ∷ history_line config ∷ []
unfolding print timeout_line history_line
lines-print config =
    lines-append magic _ (omega arith, omega arith)
    ∙ ap (λ l. magic ∷ l)
        (lines-append (timeout_line config) _ (timeout_line-IsLine config)
          ∙ ap (λ l. timeout_line config ∷ l)
              (lines-append (history_line config) [] (history_line-IsLine config) ∙ lines_end))
  where
    lines_end : history_line config ∷ lines [] ≡ history_line config ∷ []
    lines_end = unfold lines in refl

split_line-append :
    (name value : Bytes) → Lacks b'=' name → split_line (name ++ b'=' ∷ value) ≡ ok (name, value)
unfolding split_line
split_line-append name value h = rw (split_once-append b'=' name value h, split_line)

parse_timeout_line :
    (config base : Config)
    → IsValid config
    → set base timeout_name (to_string config.authorization_timeout_seconds)
      ≡ ok (record base { authorization_timeout_seconds = config.authorization_timeout_seconds })
unfolding set
parse_timeout_line config base valid = ground (arith, parse-timeout config valid)

parse_history_line :
    (config base : Config)
    → set base history_name (bool_to_string config.history_enabled)
      ≡ ok (record base { history_enabled = config.history_enabled })
unfolding set bool_to_string
parse_history_line config base = ground arith

-- The saved file of valid settings is read back as those settings.
pub parse-print : (config : Config) → IsValid config → parse (print config) ≡ ok config
unfolding parse timeout_line history_line
parse-print config valid = rw (lines-print config) (
    bind-eq _
      (split_line-append timeout_name (to_string config.authorization_timeout_seconds)
        (omega arith))
      (bind-eq _ (ap (map_err _) (parse_timeout_line config default valid)) (
        bind-eq _
          (split_line-append history_name (bool_to_string config.history_enabled) (omega arith))
          (bind-eq _ (ap (map_err _) (parse_history_line config _)) refl))))

set_line-IsValid :
    (config config' : Config) (name value : Bytes)
    → IsValid config
    → map_err (λ _. invalid_data) (set config name value) ≡ ok config'
    → IsValid config'
set_line-IsValid config config' name value valid h =
    ground (arith, set-IsValid config name value config')

parse_lines-IsValid :
    (rest : List Bytes) (config config' : Config) (timeout_seen history_seen : Bool)
    → IsValid config
    → parse_lines config timeout_seen history_seen rest ≡ ok config'
    → IsValid config'
unfolding parse_lines
parse_lines-IsValid [] config config' timeout_seen history_seen valid h = ground arith
parse_lines-IsValid (line ∷ rest) config config' timeout_seen history_seen valid h =
    let (p, e₁, h₁) = bind-eq-ok (split_line line) _ h in
    let (q, e₂, h₂) = bind-eq-ok (mark_seen p.0 timeout_seen history_seen) _ h₁ in
    let (next, e₃, h₃) = bind-eq-ok (map_err _ (set config p.0 p.1)) _ h₂ in
    parse_lines-IsValid rest next config' q.0 q.1 (set_line-IsValid config next p.0 p.1 valid e₃) h₃

-- The two flags after a line that was accepted: one more is set.
mark_seen-eq-ok :
    (name : Bytes) (timeout_seen history_seen timeout_seen' history_seen' : Bool)
    → mark_seen name timeout_seen history_seen ≡ ok (timeout_seen', history_seen')
    → ((timeout_seen ≡ false) × (timeout_seen' ≡ true) × (history_seen' ≡ history_seen))
      ⊎ ((history_seen ≡ false) × (history_seen' ≡ true) × (timeout_seen' ≡ timeout_seen))
unfolding mark_seen
mark_seen-eq-ok name timeout_seen history_seen timeout_seen' history_seen' h = ground arith

missing : Bool → Bool → ℕ
missing timeout_seen history_seen =
    (if timeout_seen then 0 else 1) + (if history_seen then 0 else 1)

-- The loop reads as many lines as there are settings that it has not seen.
parse_lines-missing :
    (rest : List Bytes) (config config' : Config) (timeout_seen history_seen : Bool)
    → parse_lines config timeout_seen history_seen rest ≡ ok config'
    → length rest ≡ missing timeout_seen history_seen
unfolding parse_lines missing
parse_lines-missing [] config config' timeout_seen history_seen h = ground arith
parse_lines-missing (line ∷ rest) config config' timeout_seen history_seen h =
    let (p, e₁, h₁) = bind-eq-ok (split_line line) _ h in
    let (q, e₂, h₂) = bind-eq-ok (mark_seen p.0 timeout_seen history_seen) _ h₁ in
    let (next, e₃, h₃) = bind-eq-ok (map_err _ (set config p.0 p.1)) _ h₂ in
    ground (
      arith,
      parse_lines-missing rest next config' q.0 q.1 h₃,
      mark_seen-eq-ok p.0 timeout_seen history_seen q.0 q.1 e₂,
    )

parse_all-eq-ok :
    (ls : List Bytes) (config : Config)
    → parse_all ls ≡ ok config
    → IsValid config × (rest : List Bytes) × (ls ≡ magic ∷ rest) × (length rest ≡ 2)
unfolding parse_all missing
parse_all-eq-ok [] config h = cc
parse_all-eq-ok (line ∷ rest) config h =
    let first : bytes_eq line magic ≡ true = ground arith in
    let h' : parse_lines default false false rest ≡ ok config = ground arith in
    let valid : IsValid default = omega arith in
    (
      parse_lines-IsValid rest default config false false valid h',
      rest,
      ap (λ l. l ∷ rest) (bytes_eq_sound line magic first),
      parse_lines-missing rest default config false false h',
    )

-- An accepted file has the first line of the format and exactly two more, and its settings are
-- within their bounds.
pub parse-IsValid :
    (contents : Bytes) (config : Config)
    → parse contents ≡ ok config
    → IsValid config × (rest : List Bytes) × (lines contents ≡ magic ∷ rest) × (length rest ≡ 2)
unfolding parse
parse-IsValid contents config h = parse_all-eq-ok (lines contents) config h

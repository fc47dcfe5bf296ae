-- ===== src/Cli/Confirmed.antt =====
-- The answers that `require_confirmation` takes.
use keyvisor.Wire.Reader.{read_until}
use keyvisor.Wire.Trim.{trim}
use keyvisor.Wire.Utf8.{codes, from_utf8, from_utf8-eq-ok}
use keyvisor.Cli.Console.{Console, is_yes, require_confirmation, Terminal, read_answer, require}
use keyvisor.Wire.Endian.{Bytes}
use keyvisor.Prelude.{
  ◌≡◌, refl, subst, ◌⊎◌, true, not, List, [], ◌∷◌, arith, length, bytes_eq_sound, Result, ok, err,
  fail_if, bind-eq-ok, not-eq-false, fail_if-eq-ok,
}
use keyvisor.Wire.Lines.{newline}
use keyvisor.Cli.Defs.{tty_failed, cancelled, CliError}

-- The four answers that mean yes.
abbrev pub IsYes : Bytes → Type 0
IsYes answer =
    (answer ≡ codes "y") ⊎ (answer ≡ codes "Y") ⊎ (answer ≡ codes "yes") ⊎ (answer ≡ codes "YES")

-- The first line that is typed in the terminal, without the white space around it, is such an
-- answer.
abbrev pub IsConfirmed : Console → Type 0
IsConfirmed console =
    (t : Terminal) × (rest : List Terminal) × (console.terminals ≡ t ∷ rest)
    × IsYes (trim (read_until (length t.typed) newline t.typed).0)

is_yes-IsYes : (answer : Bytes) → is_yes answer ≡ true → IsYes answer
unfolding is_yes
is_yes-IsYes answer h = ground (
  arith,
  bytes_eq_sound answer (codes "y"),
  bytes_eq_sound answer (codes "Y"),
  bytes_eq_sound answer (codes "yes"),
  bytes_eq_sound answer (codes "YES"),
)

read_answer-IsYes :
    (t : Terminal)
    → read_answer t ≡ ok tt
    → IsYes (trim (read_until (length t.typed) newline t.typed).0)
unfolding read_answer require
read_answer-IsYes t h =
    let line = (read_until (length t.typed) newline t.typed).0 in
    let (u, opened, h₁) = bind-eq-ok (fail_if (not t.opens) tty_failed) _ h in
    let (v, prompted, h₂) = bind-eq-ok (fail_if (not t.prompts) tty_failed) _ h₁ in
    let (answer, decoded, h₃) = bind-eq-ok (from_utf8 tty_failed line) _ h₂ in
    let (text, same) = from_utf8-eq-ok tty_failed line decoded in
    subst (λ a. IsYes (trim a)) same
      (is_yes-IsYes (trim answer)
        (not-eq-false (fail_if-eq-ok (not (is_yes (trim answer))) cancelled h₃)))

pub require_confirmation-IsConfirmed :
    (console : Console) → (require_confirmation console).0 ≡ ok tt → IsConfirmed console
unfolding require_confirmation
require_confirmation-IsConfirmed console h = of_terminals console.terminals refl h
  where
    of_terminals :
        (terminals : List Terminal)
        → console.terminals ≡ terminals
        → (elim terminals as (λ _. Result CliError (Unit {0}) × Console) [
          | [] ↦ (err tty_failed, console)
          | t ∷ rest ↦ (read_answer t, record console { terminals = rest })
        ]).0
          ≡ ok tt
        → IsConfirmed console
    of_terminals [] same h = cc
    of_terminals (t ∷ rest) same h = (t, rest, same, read_answer-IsYes t h)

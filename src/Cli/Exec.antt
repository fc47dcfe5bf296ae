-- ===== src/Cli/Exec.antt =====
-- `supervise_exec_child`: the loop beside a command that runs.
use keyvisor.Wire.Utf8.{codes}
use keyvisor.Wire.Endian.{Bytes}
use keyvisor.Cli.Defs.{CliError, multiple_requests, usage, other_request_pending, cannot_start}
use keyvisor.Prelude.{
  ℕ, ◌+◌, Bool, not, Option, none, some, List, [], ◌∷◌, if◌then◌else◌, is_empty, bytes_eq, Result,
  ok, err, fail_if, then_do,
}

-- `ExitStatus`: a code, or the signal that ended the process.
pub data ExitStatus : Type 0 where
  exited : ℕ → ExitStatus
  signalled : ℕ → ExitStatus

unfoldable pub exit_status_code : ExitStatus → ℕ
exit_status_code (exited code) = code
exit_status_code (signalled signal) = 128 + signal

-- What one round of the loop finds: the state of the child, and the requests of the agent.
pub record Round : Type 0 where
  pub status : Result CliError (Option ExitStatus)
  pub requests : Result CliError (List (Bytes × Bytes))

-- What the round does with the requests. A single one is authorized.
unfoldable pub handle_requests :
    {S : Type 0}
    → (Bytes → Bytes → S → Result CliError (Unit {0}) × S)
    → List (Bytes × Bytes)
    → S
    → Result CliError (Unit {0}) × S
handle_requests authorize [] s = (ok tt, s)
handle_requests authorize ((id, key_name) ∷ []) s = authorize id key_name s
handle_requests authorize (a ∷ b ∷ requests) s = (err multiple_requests, s)

-- A round: the status of a child that has ended, or none if the loop goes on.
unfoldable pub exec_round :
    {S : Type 0}
    → (Bytes → Bytes → S → Result CliError (Unit {0}) × S)
    → Round
    → S
    → Result CliError (Option ExitStatus) × S
unfolding handle_requests
exec_round authorize round s =
    then_do (round.status, s)
      λ status s₁. elim status [
        | some ended ↦ (ok (some ended), s₁)
        | none ↦
            then_do (round.requests, s₁)
              λ requests s₂. then_do (handle_requests authorize requests s₂) (λ _ s₃. (ok none, s₃))
      ]

-- The loop over the rounds to come; none where the child still runs after them.
unfoldable pub supervise :
    {S : Type 0}
    → (Bytes → Bytes → S → Result CliError (Unit {0}) × S)
    → List Round
    → S
    → Result CliError (Option ExitStatus) × S
unfolding exec_round
supervise authorize [] s = (ok none, s)
supervise authorize (round ∷ rounds) s = then_do (exec_round authorize round s) λ status s₁.
    elim status [ some ended ↦ (ok (some ended), s₁) | none ↦ supervise authorize rounds s₁ ]

-- `-- COMMAND`, the check of the queue before the child starts, and the loop.
unfoldable pub exec_command : List Bytes → Result CliError (List Bytes)
exec_command [] = err usage
exec_command (separator ∷ []) = err usage
exec_command (separator ∷ command ∷ arguments) =
    if bytes_eq separator (codes "--") then ok (command ∷ arguments) else err usage

unfoldable pub run_exec :
    {S : Type 0}
    → (Bytes → Bytes → S → Result CliError (Unit {0}) × S)
    → Result CliError (List (Bytes × Bytes))
    → Bool
    → List Round
    → List Bytes
    → S
    → Result CliError (Option ExitStatus) × S
unfolding exec_command supervise
run_exec authorize pending starts rounds arguments s =
    then_do (exec_command arguments, s)
      λ command s₁.
        then_do (pending, s₁)
          λ requests s₂.
            then_do (fail_if (not (is_empty requests)) other_request_pending, s₂)
              λ _ s₃.
                then_do (fail_if (not starts) cannot_start, s₃)
                  (λ _ s₄. supervise authorize rounds s₄)

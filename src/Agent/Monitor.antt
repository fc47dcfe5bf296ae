-- ===== src/Agent/Monitor.antt =====
-- `RequestMonitor` and `RequestCancellation`: the thread that watches the client's connection.
use keyvisor.Agent.Defs.{AgentError, client_disconnected}
use keyvisor.Prelude.{
  ◌≡◌, refl, ap, ◌∙◌, ◌↔◌, inl, inr, Bool, true, false, List, [], ◌∷◌, ◌++◌, arith, if◌then◌else◌,
  Bool-cases, All, Result, err, fail_if,
}

-- What `poll` returns, within 50 milliseconds each time.
pub data Poll : Type 0 where
  nothing : Poll
  events : Bool → Poll
  poll_failed : Poll

-- One turn of the loop: whether the monitor has been stopped before it, and what `poll` returns.
-- `events` says whether a hang-up or an error is among them.
abbrev pub Turn : Type 0
Turn = Bool × Poll

-- A turn that cancels the request.
unfoldable pub cancels : Poll → Bool
cancels nothing = false
cancels (events terminal) = terminal
cancels poll_failed = true

-- The flag `cancelled` after the turns.
unfoldable pub watch : List Turn → Bool
unfolding cancels
watch [] = false
watch ((stopped, poll) ∷ turns) =
    let rest = watch turns in if stopped then false else if cancels poll then true else rest

-- `check`
unfoldable pub check : Bool → Result AgentError (Unit {0})
check cancelled = fail_if cancelled client_disconnected

-- A hang-up, an error or a failure came before the monitor was stopped.
abbrev pub IsDisconnected : List Turn → Type 0
IsDisconnected turns =
    (before : List Turn) × (poll : Poll) × (after : List Turn) × (turns
      ≡ before ++ (false, poll) ∷ after)
    × All (λ turn. turn.0 ≡ false) before
    × (cancels poll ≡ true)

IsDisconnected-cons :
    (poll : Poll) (turns : List Turn)
    → IsDisconnected turns
    → IsDisconnected ((false, poll) ∷ turns)
IsDisconnected-cons poll turns (before, p, after, e, all, c) =
    ((false, poll) ∷ before, p, after, ap (λ r. (false, poll) ∷ r) e, (refl, all), c)

watch-IsDisconnected : (turns : List Turn) → watch turns ≡ true → IsDisconnected turns
unfolding watch
watch-IsDisconnected [] h = cc
watch-IsDisconnected ((true, poll) ∷ turns) h = cc
watch-IsDisconnected ((false, poll) ∷ turns) h = elim (Bool-cases (cancels poll)) [
  | inl c ↦ ([], poll, turns, refl, tt, c)
  | inr c ↦ IsDisconnected-cons poll turns (watch-IsDisconnected turns (ground (arith, c)))
]

IsDisconnected-watch :
    (before : List Turn) (poll : Poll) (after : List Turn)
    → All (λ turn. turn.0 ≡ false) before
    → cancels poll ≡ true
    → watch (before ++ (false, poll) ∷ after) ≡ true
unfolding watch
IsDisconnected-watch [] poll after all c = rw c refl
IsDisconnected-watch ((stopped, p) ∷ before) poll after (running, all) c =
    ground (arith, IsDisconnected-watch before poll after all c)

-- The check of a request fails exactly where the client hung up, or its connection or the polling
-- failed, before the monitor was stopped.
pub check_iff :
    (turns : List Turn) → (check (watch turns) ≡ err client_disconnected) ↔ IsDisconnected turns
unfolding check
check_iff turns = (
  λ h. watch-IsDisconnected turns (check-err (watch turns) h),
  λ (before, poll, after, e, all, c).
      ap (λ t. fail_if (watch t) client_disconnected) e
      ∙ ap (λ b. fail_if b client_disconnected) (IsDisconnected-watch before poll after all c),
)
  where
    check-err :
        (b : Bool)
        → ◌≡◌ {A = Result AgentError (Unit {0})}
            (fail_if b client_disconnected)
            (err client_disconnected)
        → b ≡ true
    check-err true h = refl
    check-err false h = cc

-- ===== src/Agent/Delivered.antt =====
-- A PIN that arrives in time.
use keyvisor.Agent.Defs.{AgentError}
use keyvisor.Wire.Endian.{Bytes}
use keyvisor.Prelude.{
  ◌≡◌, refl, ◌∙◌, Bool, true, not, ◌&&◌, Option, some, List, [], ◌∷◌, ◌++◌, arith, All, Result, ok,
}
use keyvisor.Agent.PinEntry.{
  message, hung_up, empty, one_round, wait_pin, after_receipt, Round, waits, Receipt,
}

round-goes_on :
    (round : Round) (receipt : Receipt) (dialog : Bool)
    (continue : Bool → Option (Result AgentError Bytes × Bool))
    → round.receipt ≡ receipt
    → waits round ≡ true
    → (dialog' : Bool) × (one_round round receipt dialog continue ≡ continue dialog')
unfolding one_round after_receipt waits
round-goes_on round (message pin) dialog continue e h = absurd (ground (arith, e))
round-goes_on round hung_up dialog continue e h = absurd (ground (arith, e))
round-goes_on round empty dialog continue e h =
    (dialog && not round.dialog_exited, ground (arith, e))

-- A PIN that is sent to a request is returned in the round that receives it, where no deadline had
-- passed, the client was there and nothing else was received in the rounds before.
pub wait_pin-message :
    (before : List Round) (last : Round) (after : List Round) (dialog : Bool) (pin : Bytes)
    → All (λ r. waits r ≡ true) before
    → last.receipt ≡ message pin
    → (dialog' : Bool) × (wait_pin (before ++ last ∷ after) dialog ≡ some (ok pin, dialog'))
unfolding wait_pin
wait_pin-message [] last after dialog pin h e = (dialog, unfold one_round in rw e refl)
wait_pin-message (round ∷ before) last after dialog pin (w, h) e =
    let (d, same) =
      round-goes_on round round.receipt dialog (wait_pin (before ++ last ∷ after)) refl w in
    let (d', made) = wait_pin-message before last after d pin h e in (d', same ∙ made)

-- ===== src/Agent/PinEntry.antt =====
-- `request_pin`: a request for a PIN from its entry in the map to its removal.
use keyvisor.Agent.Defs.{AgentError, entry_timed_out, authorization_cancelled, entry_cancelled}
use keyvisor.Wire.Endian.{Bytes}
use keyvisor.Prelude.{
  ◌≡◌, refl, ap, subst, ◌≢◌, ◌⊎◌, inl, inr, Bool, true, false, not, ◌&&◌, Option, none, some, List,
  [], ◌∷◌, ◌++◌, arith, if◌then◌else◌, Bool-cases, All, bytes_eq_sound, bytes_eq_refl, Result, ok,
  err, some-injective,
}
use keyvisor.Agent.Pending.{
  Requests, PendingAuthorization, find, insert, remove, find-remove, find-insert,
}

-- `receiver.try_recv()`
pub data Receipt : Type 0 where
  message : Bytes → Receipt
  hung_up empty : Receipt

-- What one round of the loop sees: the channel, whether the dialog has exited, whether the
-- deadline has passed, and whether the client is gone.
pub record Round : Type 0 where
  pub receipt : Receipt
  pub dialog_exited : Bool
  pub late : Bool
  pub client_gone : Bool

-- The result, and whether the dialog is still known to run.
unfoldable pub after_receipt :
    Round
    → Bool
    → (Bool → Option (Result AgentError Bytes × Bool))
    → Option (Result AgentError Bytes × Bool)
after_receipt round dialog continue =
    let dialog' = dialog && not round.dialog_exited in
    if round.late
    then some (err entry_timed_out, dialog')
    else if round.client_gone
    then some (err entry_cancelled, dialog')
    else continue dialog'

unfoldable pub one_round :
    Round
    → Receipt
    → Bool
    → (Bool → Option (Result AgentError Bytes × Bool))
    → Option (Result AgentError Bytes × Bool)
unfolding after_receipt
one_round round (message pin) dialog continue = some (ok pin, dialog)
one_round round hung_up dialog continue = some (err authorization_cancelled, dialog)
one_round round empty dialog continue = after_receipt round dialog continue

-- The `loop` over what its rounds see; `none` where it still waits.
unfoldable pub wait_pin : List Round → Bool → Option (Result AgentError Bytes × Bool)
unfolding one_round
wait_pin [] dialog = none
wait_pin (round ∷ rounds) dialog = one_round round round.receipt dialog (wait_pin rounds)

-- The map with the new request.
unfoldable pub open_request : Bytes → Bytes → Requests → Requests
open_request id key_name requests =
    insert id (record { key_name = key_name; listening = true }) requests

-- The map after the loop: what other threads did to it in between is in `requests`.
unfoldable pub close_request : Bytes → Requests → Requests
close_request id requests = remove id requests

-- A round that does not end the loop.
unfoldable pub waits : Round → Bool
waits round = elim round.receipt [
  | message pin ↦ false
  | hung_up ↦ false
  | empty ↦ not round.late && not round.client_gone
]

-- What the round that ends the loop sees, by the result. The channel is looked at first, so a PIN
-- counts whatever else the round sees; then the deadline; then the client.
abbrev pub Causes : Result AgentError Bytes → Round → Type 0
Causes (ok pin) round = round.receipt ≡ message pin
Causes (err authorization_cancelled) round = round.receipt ≡ hung_up
Causes (err entry_timed_out) round = (round.receipt ≡ empty) × (round.late ≡ true)
Causes (err entry_cancelled) round =
    (round.receipt ≡ empty) × (round.late ≡ false) × (round.client_gone ≡ true)
Causes (err _) round = ⊥

-- The rounds before wait, and one has the cause of the result.
abbrev pub EndsWith : Result AgentError Bytes → List Round → Type 0
EndsWith result rounds =
    (before : List Round) × (last : Round) × (after : List Round) × (rounds
      ≡ before ++ last ∷ after)
    × All (λ r. waits r ≡ true) before
    × Causes result last

one_round-cases :
    (round : Round) (receipt : Receipt) (result : Result AgentError Bytes) (dialog d : Bool)
    (continue : Bool → Option (Result AgentError Bytes × Bool))
    → round.receipt ≡ receipt
    → one_round round receipt dialog continue ≡ some (result, d)
    → Causes result round
      ⊎ (waits round ≡ true) × ((dialog' : Bool) × (continue dialog' ≡ some (result, d)))
unfolding one_round after_receipt waits
one_round-cases round (message p) result dialog d continue e h =
    inl (subst (λ r. Causes r round) (ap (λ p. p.0) (some-injective h)) e)
one_round-cases round hung_up result dialog d continue e h =
    inl (subst (λ r. Causes r round) (ap (λ p. p.0) (some-injective h)) e)
one_round-cases round empty result dialog d continue e h = elim (Bool-cases round.late) [
  | inl late ↦
      inl (subst (λ r. Causes r round) (ap (λ p. p.0) (some-injective (rw late at h))) (e, late))
  | inr early ↦ elim (Bool-cases round.client_gone) [
    | inl gone ↦ inl (
        subst (λ r. Causes r round) (ap (λ p. p.0) (some-injective (rw (early, gone) at h)))
          (e, early, gone))
    | inr stays ↦
        inr (rw (e, early, stays) refl, (dialog && not round.dialog_exited, rw (early, stays) at h))
  ]
]

-- Each result of the loop has its cause in one round, and the rounds before it received nothing,
-- were not past the deadline, and the client was there: a PIN is the one that the round received,
-- also where the deadline has passed or the client left since the round before; the entry timed out
-- in a round that received nothing after the deadline, and was cancelled in one that received
-- nothing before the deadline when the client was gone; the authorization was cancelled where the
-- channel was closed. There is no other result.
pub wait_pin-EndsWith :
    (rounds : List Round) (dialog d : Bool) (result : Result AgentError Bytes)
    → wait_pin rounds dialog ≡ some (result, d)
    → EndsWith result rounds
unfolding wait_pin
wait_pin-EndsWith [] dialog d result h = cc
wait_pin-EndsWith (round ∷ rounds) dialog d result h =
    elim (one_round-cases round round.receipt result dialog d (wait_pin rounds) refl h) [
      | inl e ↦ ([], round, rounds, refl, tt, e)
      | inr (w, (dialog', h')) ↦
          let (before, last, after, e, hw, hr) = wait_pin-EndsWith rounds dialog' d result h' in
          (round ∷ before, last, after, ap (λ l. round ∷ l) e, (w, hw), hr)
    ]

Ends : Option (Result AgentError Bytes × Bool) → Type 0
Ends o = (r : Result AgentError Bytes × Bool) × (o ≡ some r)

one_round-Ends :
    (round : Round) (receipt : Receipt) (dialog : Bool)
    (continue : Bool → Option (Result AgentError Bytes × Bool))
    → (round.late ≡ true) ⊎ ((d : Bool) → Ends (continue d))
    → Ends (one_round round receipt dialog continue)
unfolding one_round after_receipt Ends
one_round-Ends round (message pin) dialog continue h = (_, refl)
one_round-Ends round hung_up dialog continue h = (_, refl)
one_round-Ends round empty dialog continue (inl late) = rw late (_, refl)
one_round-Ends round empty dialog continue (inr ends) = elim (Bool-cases round.late) [
  | inl a ↦ rw a (_, refl)
  | inr a ↦ elim (Bool-cases round.client_gone) [
    | inl b ↦ rw (a, b) (_, refl)
    | inr b ↦ rw (a, b) (ends (dialog && not round.dialog_exited))
  ]
]

wait_pin-Ends :
    (before after : List Round) (last : Round) (dialog : Bool)
    → last.late ≡ true
    → Ends (wait_pin (before ++ last ∷ after) dialog)
unfolding wait_pin
wait_pin-Ends [] after last dialog late =
    one_round-Ends last last.receipt dialog (wait_pin after) (inl late)
wait_pin-Ends (round ∷ before) after last dialog late =
    one_round-Ends round round.receipt dialog (wait_pin (before ++ last ∷ after))
      (inr (λ d. wait_pin-Ends before after last d late))

-- The loop ends at the deadline at the latest.
pub wait_pin_total :
    (before after : List Round) (last : Round) (dialog : Bool)
    → last.late ≡ true
    → (r : Result AgentError Bytes × Bool) × (wait_pin (before ++ last ∷ after) dialog ≡ some r)
unfolding Ends
wait_pin_total before after last dialog late = wait_pin-Ends before after last dialog late

-- Once a request is over, its identifier is not pending, whatever the control service did to the
-- map meanwhile, and the other requests are as they were left.
pub close_request-open_request :
    (id key key_name : Bytes) (requests requests' : Requests)
    → (find id (open_request id key_name requests)
        ≡ some (record { key_name = key_name; listening = true }))
      × (find id (close_request id requests') ≡ none)
      × (id ≢ key
          → (find key (open_request id key_name requests) ≡ find key requests)
            × (find key (close_request id requests') ≡ find key requests'))
unfolding open_request close_request
close_request-open_request id key key_name requests requests' =
    let request : PendingAuthorization = record { key_name = key_name; listening = true } in
    (
      ground (arith, find-insert id id request requests, bytes_eq_refl id),
      ground (arith, find-remove id id requests', bytes_eq_refl id),
      λ ne. (
        ground (arith, find-insert id key request requests, bytes_eq_sound id key),
        ground (arith, find-remove id key requests', bytes_eq_sound id key),
      ),
    )

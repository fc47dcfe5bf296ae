-- ===== src/Cli/Supervised.antt =====
-- Which requests the loop beside a command authorizes.
use keyvisor.Cli.Exec.{handle_requests, supervise, Round, ExitStatus, exec_round}
use keyvisor.Cli.Defs.{CliError}
use keyvisor.Wire.Endian.{Bytes}
use keyvisor.Prelude.{
  ◌≡◌, refl, sym, ◌∙◌, Option, none, some, List, [], ◌∷◌, ◌++◌, append_assoc, append-nil, Result,
  ok, err, then_do,
}

-- A record of which requests were authorized, in order.
abbrev pub Trace : Type 0
Trace = List (Bytes × Bytes)

-- Each pair of the trace was the only pending request of a round, and rounds are taken in order.
pub data OnlyOnes : List Round → Trace → Type 0 where
  nothing_left : {rounds : List Round} → OnlyOnes rounds []
  passed :
      {round : Round} {rounds : List Round} {trace : Trace}
      → OnlyOnes rounds trace
      → OnlyOnes (round ∷ rounds) trace
  only :
      {round : Round} {rounds : List Round} {trace : Trace} (id key_name : Bytes)
      → round.status ≡ ok none
      → round.requests ≡ ok ((id, key_name) ∷ [])
      → OnlyOnes rounds trace
      → OnlyOnes (round ∷ rounds) ((id, key_name) ∷ trace)

module _ {S : Type 0} (authorize : Bytes → Bytes → S → Result CliError (Unit {0}) × S) where
  -- The authorization, with a record of the requests that it was called for.
  abbrev pub recorded : Bytes → Bytes → S × Trace → Result CliError (Unit {0}) × (S × Trace)
  recorded id key_name (s, trace) =
      ((authorize id key_name s).0, ((authorize id key_name s).1, trace ++ (id, key_name) ∷ []))

  -- The trace of a state is one from before, and what the rounds allow.
  abbrev pub IsCareful : List Round → Trace → S × Trace → Type 0
  IsCareful rounds trace w = (new : Trace) × (w.1 ≡ trace ++ new) × OnlyOnes rounds new

  stays : (rounds : List Round) (s : S) (trace : Trace) → IsCareful rounds trace (s, trace)
  stays rounds s trace = ([], sym (append-nil trace), nothing_left)

  pass :
      (round : Round) (rounds : List Round) (trace : Trace) (w : S × Trace)
      → IsCareful rounds trace w
      → IsCareful (round ∷ rounds) trace w
  pass round rounds trace w (new, e, h) = (new, e, passed h)

  -- After the requests of a round, with the rest of the rounds to come.
  requests-IsCareful :
      (round : Round) (rounds : List Round) (requests : List (Bytes × Bytes)) (s : S)
      (trace : Trace)
      → round.status ≡ ok none
      → round.requests ≡ ok requests
      → (w : S × Trace) → IsCareful rounds (handle_requests recorded requests (s, trace)).1.1 w
      → IsCareful (round ∷ rounds) trace w
  unfolding handle_requests
  requests-IsCareful round rounds [] s trace running pending w c = pass round rounds trace w c
  requests-IsCareful round rounds ((id, key_name) ∷ []) s trace running pending w (new, e, h) = (
    (id, key_name) ∷ new,
    e ∙ append_assoc trace ((id, key_name) ∷ []) new,
    only id key_name running pending h,
  )
  requests-IsCareful round rounds (a ∷ b ∷ requests) s trace running pending w c =
      pass round rounds trace w c

  after_requests :
      (rounds before : List Round) (trace : Trace) (m : Result CliError (Unit {0}) × (S × Trace))
      → ((s : S) (now : Trace) → IsCareful rounds now (supervise recorded rounds (s, now)).1)
      → ((w : S × Trace) → IsCareful rounds m.1.1 w → IsCareful before trace w)
      → IsCareful before trace
          (then_do {B = Option ExitStatus}
            (then_do {B = Option ExitStatus} m (λ _ w. (ok none, w)))
            λ (status : Option ExitStatus) w. elim status [
              | some ended ↦ (ok (some ended), w)
              | none ↦ supervise recorded rounds w
            ]).1
  unfolding then_do
  after_requests rounds before trace (ok u, (s, now)) rest lift =
      lift (supervise recorded rounds (s, now)).1 (rest s now)
  after_requests rounds before trace (err e, (s, now)) rest lift =
      lift (s, now) (stays rounds s now)

  one_round :
      (status : Result CliError (Option ExitStatus))
      (requests : Result CliError (List (Bytes × Bytes))) (rounds : List Round) (s : S)
      (trace : Trace)
      → ((s' : S) (now : Trace) → IsCareful rounds now (supervise recorded rounds (s', now)).1)
      → IsCareful
          (record { status = status; requests = requests } ∷ rounds)
          trace
          (supervise recorded
            (record { status = status; requests = requests } ∷ rounds)
            (s, trace)).1
  unfolding supervise exec_round then_do
  one_round (err e) requests rounds s trace rest = stays _ s trace
  one_round (ok (some ended)) requests rounds s trace rest = stays _ s trace
  one_round (ok none) (err e) rounds s trace rest = stays _ s trace
  one_round (ok none) (ok found) rounds s trace rest =
      let round : Round = record { status = ok none; requests = ok found } in
      after_requests rounds (round ∷ rounds) trace (handle_requests recorded found (s, trace)) rest
        (requests-IsCareful round rounds found s trace refl refl)

  -- The requests that the loop authorizes are each the only pending one of a round in which the
  -- command still runs, at most one a round and in the order of the rounds, whatever the agent, the
  -- command and the authorizations answer.
  pub supervise-IsCareful :
      (rounds : List Round) (s : S) (trace : Trace)
      → IsCareful rounds trace (supervise recorded rounds (s, trace)).1
  supervise-IsCareful [] s trace = unfold supervise in stays [] s trace
  supervise-IsCareful (round ∷ rounds) s trace =
      one_round round.status round.requests rounds s trace (supervise-IsCareful rounds)

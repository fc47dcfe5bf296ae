-- ===== src/Examples/Agent.antt =====
-- The agent process at concrete inputs.
use keyvisor.Protocol.Defs.{failure_response}
use keyvisor.Wire.Lines.{newline}
use keyvisor.Wire.Words.{is_ascii_whitespace, IsWord}
use keyvisor.Wire.Utf8.{codes, ascii-IsText}
use keyvisor.Wire.Endian.{Bytes, to_be_bytes}
use keyvisor.Prelude.{
  ℕ, suc, ◌≡◌, refl, ◌≢◌, Bool, true, false, some, List, [], ◌∷◌, ◌++◌, arith, Result, ok, err,
}
use keyvisor.Agent.Defs.{AgentError, invalid_packet_length, not_owner, not_pending}
use keyvisor.Agent.Serve.{Served, serve_connection}
use keyvisor.Agent.Serving.{
  all_framed, answers, handled, serve_connection_total, serve_connection_lem,
}
use keyvisor.Agent.Connections.{Limiter, Reachable, IsSafe, Reachable-IsSafe, acquire, release, new}
use keyvisor.Agent.Pending.{PendingAuthorization, find, remove}
use keyvisor.Agent.Control.{ControlState, serve_control_connection, refuse, accept}
use keyvisor.Agent.Authorize.{Allowed, serve_control_connection-Allowed}
use keyvisor.Agent.Exchange.{authorize_command, serve_control_connection_lem}
use keyvisor.Agent.PinEntry.{Round, wait_pin, EndsWith, wait_pin-EndsWith, wait_pin_total}
use keyvisor.Agent.Connections.{start, after, acquires, releases}
use keyvisor.Agent.PinEntry.{message, empty}

-- A handler that counts and echoes.
abbrev echo : Bytes → ℕ → Result AgentError Bytes × ℕ
echo packet count = (ok packet, suc count)

abbrev packets : List Bytes
packets = (11 ∷ []) ∷ (13 ∷ 0 ∷ []) ∷ []

serve_connection_total_example :
    (r : Served ℕ) × (serve_connection echo (0 ∷ 0 ∷ 0 ∷ 1 ∷ 11 ∷ 0 ∷ []) 0 ≡ some r)
serve_connection_total_example = serve_connection_total echo (0 ∷ 0 ∷ 0 ∷ 1 ∷ 11 ∷ 0 ∷ []) 0

serve_connection_lem_example :
    (serve_connection echo (all_framed packets) 0
      ≡ some (record {
        result = ok tt;
        output = answers echo packets 0;
        runtime = handled echo packets 0;
      }))
    × (serve_connection echo (all_framed packets ++ (to_be_bytes 4 300000 ++ 1 ∷ [])) 0
        ≡ some (record {
          result = err invalid_packet_length;
          output = answers echo packets 0 ++ failure_response;
          runtime = handled echo packets 0;
        }))
serve_connection_lem_example =
    serve_connection_lem echo packets 300000 (1 ∷ []) 0
      ((omega arith, omega arith), ((omega arith, omega arith), tt)) (omega arith) (omega arith)

-- One place: a connection is served, a second one waits, the first ends.
abbrev one_place : Limiter
one_place = release (acquire (acquire (new 1)))

one_place-Reachable : Reachable 1 one_place
one_place-Reachable =
    after _ _ (after _ _ (after _ _ start (acquires (new 1))) (acquires (acquire (new 1))))
      (releases (acquire (acquire (new 1))) (unfold acquire new in omega arith))

Reachable-IsSafe_example : IsSafe 1 one_place
Reachable-IsSafe_example = Reachable-IsSafe 1 one_place one_place-Reachable

abbrev request : PendingAuthorization
request = record { key_name = codes "laptop"; listening = true }

abbrev state : ControlState
state = record { pending = (codes "1a-1", request) ∷ (codes "1a-2", request) ∷ []; delivered = [] }

abbrev secret : Bytes
secret = codes "123456"

serve_control_connection-Allowed_example :
    Allowed state
      (serve_control_connection 1000 0 (authorize_command (codes "1a-1") secret) state).state
    × (◌≢◌ {A = ℕ} 1000 0
        → serve_control_connection 1000 0 (authorize_command (codes "1a-1") secret) state
          ≡ refuse not_owner state)
serve_control_connection-Allowed_example =
    serve_control_connection-Allowed 1000 0 (authorize_command (codes "1a-1") secret) state

id-IsWord : IsWord (codes "1a-2")
unfolding is_ascii_whitespace
id-IsWord = (λ p. cc, (refl, (refl, (refl, (refl, tt)))))

serve_control_connection_lem_example :
    let state' : ControlState = record {
      pending = remove (codes "1a-2") state.pending;
      delivered = state.delivered ++ (codes "1a-2", secret) ∷ [];
    } in
    (serve_control_connection 1000 1000 (authorize_command (codes "1a-2") secret ++ []) state
      ≡ accept (codes "OK authorized" ++ newline ∷ []) state')
    × (serve_control_connection 1000 1000 (authorize_command (codes "1a-2") secret ++ []) state'
        ≡ refuse not_pending state')
serve_control_connection_lem_example =
    serve_control_connection_lem 1000 (codes "1a-2") secret [] [] request state id-IsWord
      (ascii-IsText (codes "1a-2") (omega arith)) (omega arith) (omega arith) (omega arith)
      (omega arith) (unfold find in refl) refl

abbrev quiet : Round
quiet = record { receipt = empty; dialog_exited = true; late = false; client_gone = false }

abbrev answered : Round
answered = record {
  receipt = message secret;
  dialog_exited = false;
  late = false;
  client_gone = false;
}

wait_pin-EndsWith_example : EndsWith (ok secret) (quiet ∷ answered ∷ [])
wait_pin-EndsWith_example =
    wait_pin-EndsWith (quiet ∷ answered ∷ []) true false (ok secret) (unfold wait_pin in refl)

abbrev deadline : Round
deadline = record { receipt = empty; dialog_exited = false; late = true; client_gone = false }

wait_pin_total_example :
    (r : Result AgentError Bytes × Bool) × (wait_pin ((quiet ∷ []) ++ deadline ∷ []) true ≡ some r)
wait_pin_total_example = wait_pin_total (quiet ∷ []) [] deadline true refl

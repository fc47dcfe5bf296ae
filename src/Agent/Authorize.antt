-- ===== src/Agent/Authorize.antt =====
-- `serve_control_connection`: the changes of the pending map by a command.
use keyvisor.Wire.Words.{split_ascii_whitespace}
use keyvisor.Wire.Lines.{starts_with}
use keyvisor.Wire.Cursor.{split_at, split_at-eq-ok}
use keyvisor.Wire.Utf8.{codes}
use keyvisor.Agent.Defs.{AgentError, not_owner, max_pin_bytes, truncated_authorization}
use keyvisor.Agent.Pending.{PendingAuthorization, find, remove}
use keyvisor.Wire.Endian.{Bytes}
use keyvisor.Prelude.{
  ℕ, ◌≤◌, ◌≡◌, refl, ◌≢◌, ◌⊎◌, inl, inr, true, false, Option, none, some, List, [], ◌∷◌, ◌++◌,
  arith, ◌==◌, ==_iff, Bool-cases, length, bytes_eq, Result, ok, err,
}
use keyvisor.Agent.Control.{
  ControlState, authorize_length, authorize_fields, deliver, authorize, run_command,
  serve_control_connection, refuse, accept, authorize_pin, run_line, read_control_line,
}

-- How a command may change the state: not at all; or it takes a request that was pending out, and
-- nothing else, after it has sent the request a PIN of 6 to 64 bytes or found that its receiver is
-- gone.
pub record Takes (state state' : ControlState) : Type 0 where
  pub id : Bytes
  pub request : PendingAuthorization
  pub was_pending : find id state.pending ≡ some request
  pub taken : state'.pending ≡ remove id state.pending
  pub sent :
      (request.listening ≡ false) × (state'.delivered ≡ state.delivered)
      ⊎ (request.listening ≡ true)
        × ((pin : Bytes) × (6 ≤ length pin)
            × (length pin ≤ max_pin_bytes)
            × (state'.delivered ≡ state.delivered ++ (id, pin) ∷ []))

abbrev pub Allowed : ControlState → ControlState → Type 0
Allowed state state' = (state' ≡ state) ⊎ Takes state state'

authorize_length-eq-ok :
    (key text : Bytes) (more : List Bytes) {id : Bytes} {n : ℕ}
    → authorize_length key text more ≡ ok (id, n)
    → (6 ≤ n) × (n ≤ max_pin_bytes)
unfolding authorize_length
authorize_length-eq-ok key text more h = ground arith

authorize_fields-eq-ok :
    (fields : List Bytes) {id : Bytes} {n : ℕ}
    → authorize_fields fields ≡ ok (id, n)
    → (6 ≤ n) × (n ≤ max_pin_bytes)
unfolding authorize_fields
authorize_fields-eq-ok [] h = cc
authorize_fields-eq-ok (command ∷ []) h = ground arith
authorize_fields-eq-ok (command ∷ id ∷ []) h = ground arith
authorize_fields-eq-ok (command ∷ id ∷ text ∷ more) h =
    ground (arith, authorize_length-eq-ok id text more)

deliver-Allowed :
    (id pin : Bytes) (state : ControlState) (r : Option PendingAuthorization)
    → find id state.pending ≡ r
    → 6 ≤ length pin
    → length pin ≤ max_pin_bytes
    → Allowed state (deliver id pin state r).state
unfolding deliver refuse accept
deliver-Allowed id pin state none e short fits = inl refl
deliver-Allowed id pin state (some request) e short fits = elim (Bool-cases request.listening) [
  | inl h ↦ rw h (
      inr (record {
        id = id;
        request = request;
        was_pending = e;
        taken = refl;
        sent = inr (h, (pin, short, fits, refl));
      }))
  | inr h ↦ rw h (
      inr (record {
        id = id;
        request = request;
        was_pending = e;
        taken = refl;
        sent = inl (h, refl);
      }))
]

authorize_pin-Allowed :
    (id input : Bytes) (n : ℕ) (state : ControlState) (r : Result AgentError (Bytes × Bytes))
    → split_at truncated_authorization input n ≡ r
    → 6 ≤ n
    → n ≤ max_pin_bytes
    → Allowed state (authorize_pin id state r).state
unfolding authorize_pin refuse
authorize_pin-Allowed id input n state (err e) same short fits = inl refl
authorize_pin-Allowed id input n state (ok (pin, rest)) same short fits =
    let (_, len) = split_at-eq-ok truncated_authorization input n same in
    deliver-Allowed id pin state _ refl (omega arith) (omega arith)

authorize-Allowed :
    (fields : List Bytes) (input : Bytes) (state : ControlState) (r : Result AgentError (Bytes × ℕ))
    → authorize_fields fields ≡ r
    → Allowed state (authorize input state r).state
unfolding authorize refuse
authorize-Allowed fields input state (err e) same = inl refl
authorize-Allowed fields input state (ok (id, n)) same =
    let (short, fits) = authorize_fields-eq-ok fields same in
    authorize_pin-Allowed id input n state _ refl short fits

run_command-Allowed :
    (command input : Bytes) (state : ControlState)
    → Allowed state (run_command command input state).state
unfolding run_command accept refuse
run_command-Allowed command input state = elim (Bool-cases (bytes_eq command (codes "STATUS"))) [
  | inl a ↦ rw a (inl refl)
  | inr a ↦ elim (Bool-cases (bytes_eq command (codes "LIST"))) [
    | inl b ↦ rw (a, b) (inl refl)
    | inr b ↦ elim (Bool-cases (starts_with (codes "AUTHORIZE ") command)) [
      | inl c ↦ rw (a, b, c) (authorize-Allowed (split_ascii_whitespace command) input state _ refl)
      | inr c ↦ rw (a, b, c) (inl refl)
    ]
  ]
]

run_line-Allowed :
    (state : ControlState) (r : Result AgentError (Bytes × Bytes))
    → Allowed state (run_line state r).state
unfolding run_line refuse
run_line-Allowed state (err e) = inl refl
run_line-Allowed state (ok (command, rest)) = run_command-Allowed command rest state

-- Whatever a peer of the control socket sends, at most one request changes: a PIN of 6 to 64 bytes
-- goes only to a request that was pending, which is not pending any more, so that it gets no
-- second one. A peer that is not the agent's user changes nothing and gets an error.
pub serve_control_connection-Allowed :
    (peer owner : ℕ) (input : Bytes) (state : ControlState)
    → Allowed state (serve_control_connection peer owner input state).state
      × (peer ≢ owner → serve_control_connection peer owner input state ≡ refuse not_owner state)
unfolding serve_control_connection refuse
serve_control_connection-Allowed peer owner input state = elim (Bool-cases (peer == owner)) [
  | inl h ↦ rw h (
    run_line-Allowed state (read_control_line input),
    λ ne. absurd (ne ((==_iff peer owner).0 h)),
  )
  | inr h ↦ rw h (inl refl, λ ne. refl)
]

-- ===== src/Agent/Exchange.antt =====
-- The `AUTHORIZE` exchange: the command that the command line sends and what the agent does.
use keyvisor.Agent.Defs.{max_pin_bytes, max_control_line_bytes}
use keyvisor.Wire.Cursor.{split_at-append}
use keyvisor.Wire.Reader.{read_until-append, ends_with-append, pop_if-append}
use keyvisor.Agent.Defs.{
  max_pin_bytes, max_control_line_bytes, not_utf8, not_pending, truncated_authorization,
}
use keyvisor.Agent.Pending.{PendingAuthorization, find, remove, find-remove}
use keyvisor.Wire.Decimal.{
  IsDigit, to_string, to_string-ne-nil, parse_u64, to_string-AreDigits, length-to_string,
  parse-to_string, u64_max,
}
use keyvisor.Wire.Lines.{newline, Lacks, starts_with}
use keyvisor.Wire.Utf8.{codes, IsText, append-IsText, ascii-IsText, from_utf8-IsText}
use keyvisor.Wire.Words.{
  is_ascii_whitespace, IsWord, split_ascii_whitespace, words-append, words-last,
}
use keyvisor.Wire.Endian.{Bytes}
use keyvisor.Prelude.{
  ℕ, ◌+◌, ◌≤◌, ◌<◌, ◌≡◌, refl, ap, ◌∙◌, ◌≢◌, true, false, none, some, [], ◌∷◌, ◌++◌, append_assoc,
  arith, ==_iff, length, length-append, All-append, bytes_eq_refl, ok, All-map,
}
use keyvisor.Agent.Control.{
  ControlState, authorize_fields, read_control_line, authorize_length, serve_control_connection,
  accept, refuse, run_command, run_line, deliver, authorize, authorize_pin,
}

-- `writeln!(stream, "AUTHORIZE {id} {}", pin.len())` and the PIN: what `authorize_request` of the
-- command line sends.
unfoldable pub authorize_line : Bytes → Bytes → Bytes
authorize_line id pin = (codes "AUTHORIZE " ++ id) ++ b' ' ∷ to_string (length pin)

unfoldable pub authorize_command : Bytes → Bytes → Bytes
authorize_command id pin = authorize_line id pin ++ newline ∷ pin

authorize-IsWord : IsWord (codes "AUTHORIZE")
unfolding is_ascii_whitespace
authorize-IsWord =
    (λ p. cc, (refl, (refl, (refl, (refl, (refl, (refl, (refl, (refl, (refl, tt))))))))))

digit-IsWord : (c : ℕ) → IsDigit c → is_ascii_whitespace c ≡ false
unfolding is_ascii_whitespace
digit-IsWord c (low, high) = ground arith

digits-IsWord : (n : ℕ) → IsWord (to_string n)
digits-IsWord n = (to_string-ne-nil n, All-map digit-IsWord (to_string n) (to_string-AreDigits n))

authorize_line-fields :
    (id pin : Bytes)
    → IsWord id
    → 6 ≤ length pin
    → length pin ≤ max_pin_bytes
    → authorize_fields (split_ascii_whitespace (authorize_line id pin)) ≡ ok (id, length pin)
unfolding authorize_line authorize_fields authorize_length parse_u64
authorize_line-fields id pin word low high =
    let text = to_string (length pin) in
    let fields : split_ascii_whitespace (codes "AUTHORIZE" ++ b' ' ∷ (id ++ b' ' ∷ text))
        ≡ codes "AUTHORIZE" ∷ id ∷ text ∷ [] =
      words-append (codes "AUTHORIZE") (id ++ b' ' ∷ text) b' ' authorize-IsWord
        (unfold is_ascii_whitespace in refl)
      ∙ ap (λ l. codes "AUTHORIZE" ∷ l)
          (words-append id text b' ' word (unfold is_ascii_whitespace in refl)
            ∙ ap (λ l. id ∷ l) (words-last text (digits-IsWord (length pin)))) in
    ap authorize_fields fields ∙ ground (arith, parse-to_string u64_max (length pin) (omega arith))

digit-ne-newline : (c : ℕ) → IsDigit c → c ≢ newline
digit-ne-newline c (low, high) = ground arith

digit-ascii : (c : ℕ) → IsDigit c → c < 128
digit-ascii c (low, high) = omega arith

authorize_line-Lacks : (id pin : Bytes) → Lacks newline id → Lacks newline (authorize_line id pin)
unfolding authorize_line
authorize_line-Lacks id pin line =
    All-append _ (codes "AUTHORIZE " ++ id) _
      (All-append _ (codes "AUTHORIZE ") id (omega arith) line)
      (omega arith, All-map digit-ne-newline _ (to_string-AreDigits (length pin)))

authorize_line-IsText : (id pin : Bytes) → IsText id → IsText (authorize_line id pin)
unfolding authorize_line
authorize_line-IsText id pin text =
    append-IsText (codes "AUTHORIZE " ++ id) _
      (append-IsText (codes "AUTHORIZE ") id (ascii-IsText (codes "AUTHORIZE ") (omega arith)) text)
      (ascii-IsText _ (omega arith, All-map digit-ascii _ (to_string-AreDigits (length pin))))

length-authorize_line :
    (id pin : Bytes) → length (authorize_line id pin) ≤ 12 + length id + length pin
unfolding authorize_line
length-authorize_line id pin = omega (
  arith,
  length-append (codes "AUTHORIZE " ++ id) (b' ' ∷ to_string (length pin)),
  length-append (codes "AUTHORIZE ") id,
  length-to_string (length pin),
)

authorize_line-read :
    (id pin more : Bytes)
    → IsText id
    → Lacks newline id
    → length id ≤ 1000
    → length pin ≤ max_pin_bytes
    → read_control_line (authorize_command id pin ++ more) ≡ ok (authorize_line id pin, pin ++ more)
unfolding read_control_line authorize_command
authorize_line-read id pin more text line short high =
    let command = authorize_line id pin in
    let fits = length-authorize_line id pin in
    let joined : authorize_command id pin ++ more ≡ command ++ newline ∷ (pin ++ more) =
      append_assoc command (newline ∷ pin) more in
    let found =
      read_until-append (max_control_line_bytes + 1) newline command (pin ++ more)
        (authorize_line-Lacks id pin line) (omega arith) in
    rw
      (
        joined,
        found,
        ends_with-append newline command,
        pop_if-append newline command,
        from_utf8-IsText not_utf8 command (authorize_line-IsText id pin text),
      )
      (ground (arith, length-append command (newline ∷ [])))

run_command-authorize_line :
    (id pin input : Bytes) (state : ControlState)
    → run_command (authorize_line id pin) input state
      ≡ authorize input state (authorize_fields (split_ascii_whitespace (authorize_line id pin)))
unfolding run_command authorize_line starts_with
run_command-authorize_line id pin input state = refl

exchange :
    (owner : ℕ) (id pin more : Bytes) (state : ControlState)
    → IsWord id
    → IsText id
    → Lacks newline id
    → length id ≤ 1000
    → 6 ≤ length pin
    → length pin ≤ max_pin_bytes
    → serve_control_connection owner owner (authorize_command id pin ++ more) state
      ≡ deliver id pin state (find id state.pending)
unfolding serve_control_connection run_line
exchange owner id pin more state word text line short low high = rw (
  (==_iff owner owner).1 refl,
  authorize_line-read id pin more text line short high,
  run_command-authorize_line id pin (pin ++ more) state,
  authorize_line-fields id pin word low high,
  authorize,
  split_at-append truncated_authorization pin more (length pin) refl,
  authorize_pin,
)

-- The agent's user sends the command line's authorization of a pending request whose receiver
-- exists, with an identifier that is one word of UTF-8 text, without a newline, of at most 1000
-- bytes, and a PIN of 6 to 64 bytes: the PIN is sent to the request, which is taken out of the map,
-- and the peer is told so. The same command in the state after that is refused.
pub serve_control_connection_lem :
    (owner : ℕ) (id pin rest rest' : Bytes) (request : PendingAuthorization) (state : ControlState)
    → IsWord id
    → IsText id
    → Lacks newline id
    → length id ≤ 1000
    → 6 ≤ length pin
    → length pin ≤ max_pin_bytes
    → find id state.pending ≡ some request
    → request.listening ≡ true
    → let state' : ControlState = record {
      pending = remove id state.pending;
      delivered = state.delivered ++ (id, pin) ∷ [];
    } in
      (serve_control_connection owner owner (authorize_command id pin ++ rest) state
        ≡ accept (codes "OK authorized" ++ newline ∷ []) state')
      × (serve_control_connection owner owner (authorize_command id pin ++ rest') state'
          ≡ refuse not_pending state')
unfolding deliver
serve_control_connection_lem owner id pin rest rest' request state word text line short low high
      here listening =
    let state' : ControlState = record {
      pending = remove id state.pending;
      delivered = state.delivered ++ (id, pin) ∷ [];
    } in
    let gone : find id (remove id state.pending) ≡ none =
      ground (arith, find-remove id id state.pending, bytes_eq_refl id) in
    (
      exchange owner id pin rest state word text line short low high
          ∙ ap (deliver id pin state) here
          ∙ rw listening,
      exchange owner id pin rest' state' word text line short low high
          ∙ ap (deliver id pin state') gone,
    )

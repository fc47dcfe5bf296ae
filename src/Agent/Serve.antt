-- ===== src/Agent/Serve.antt =====
-- `read_packet_length` and `serve_connection`: the packets of one client.
use keyvisor.Protocol.Defs.{failure_response, max_packet_length}
use keyvisor.Wire.Cursor.{split_at}
use keyvisor.Agent.Defs.{
  AgentError, truncated_packet_length, invalid_packet_length, truncated_packet,
}
use keyvisor.Wire.Endian.{Bytes, from_be_bytes}
use keyvisor.Prelude.{
  ℕ, zero, suc, ◌||◌, Option, none, some, [], ◌∷◌, ◌++◌, ltb, ◌==◌, if◌then◌else◌, length, Result,
  ok, err, ◌>>=◌,
}

-- `none` is the end of the stream. The length fits in a `usize`, which has 64 bits.
unfoldable pub read_packet_length : Bytes → Result AgentError (Option (ℕ × Bytes))
read_packet_length [] = ok none
read_packet_length (b ∷ input) = do
  (more, rest) ← split_at truncated_packet_length input 3
  ok (some (from_be_bytes (b ∷ more), rest))

-- `unwrap_or_else(|_| failure_response())`
unfoldable pub response_or_failure : Result AgentError Bytes → Bytes
response_or_failure (ok response) = response
response_or_failure (err e) = failure_response

-- What a connection ends with: its result, what was written to the client, and the runtime.
pub record Served (S : Type 0) : Type 0 where
  pub result : Result AgentError (Unit {0})
  pub output : Bytes
  pub runtime : S

-- The runtime's handler. The stream's writes and the start of its monitor succeed.
module _ {S : Type 0} (handle : Bytes → S → Result AgentError Bytes × S) where
  -- One round of the `loop` after its length.
  unfoldable pub serve_packet :
      (Bytes → Bytes → S → Option (Served S)) → ℕ → Bytes → Bytes → S → Option (Served S)
  serve_packet continue n input output runtime =
      if n == 0 || ltb max_packet_length n
      then some (record {
        result = err invalid_packet_length;
        output = output ++ failure_response;
        runtime = runtime;
      })
      else elim (split_at truncated_packet input n) [
        | ok p ↦
            continue p.1 (output ++ response_or_failure (handle p.0 runtime).0)
              (handle p.0 runtime).1
        | err e ↦ some (record { result = err e; output = output; runtime = runtime })
      ]

  unfoldable pub serve_next :
      (Bytes → Bytes → S → Option (Served S))
      → Result AgentError (Option (ℕ × Bytes))
      → Bytes
      → S
      → Option (Served S)
  serve_next continue (ok none) output runtime =
      some (record { result = ok tt; output = output; runtime = runtime })
  serve_next continue (ok (some p)) output runtime = serve_packet continue p.0 p.1 output runtime
  serve_next continue (err e) output runtime =
      some (record { result = err e; output = output; runtime = runtime })

  -- The `loop`, on fuel; `none` is the lack of fuel.
  unfoldable pub serve_loop : ℕ → Bytes → Bytes → S → Option (Served S)
  serve_loop zero input output runtime = none
  serve_loop (suc fuel) input output runtime =
      serve_next (serve_loop fuel) (read_packet_length input) output runtime

  -- Each round reads at least four bytes, so the length of the input is enough fuel.
  unfoldable pub serve_connection : Bytes → S → Option (Served S)
  unfolding serve_loop serve_next serve_packet read_packet_length response_or_failure
  serve_connection input runtime = serve_loop (suc (length input)) input [] runtime

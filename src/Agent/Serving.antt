-- ===== src/Agent/Serving.antt =====
-- `serve_connection` on the framed packets of a client, and on any bytes.
use keyvisor.Agent.Defs.{
  AgentError, truncated_packet_length, truncated_packet, invalid_packet_length,
}
use keyvisor.Protocol.Defs.{max_packet_length, failure_response}
use keyvisor.Wire.Cursor.{split_at, split_at-append}
use keyvisor.Wire.Endian.{
  Bytes, to_be_bytes, from_be_bytes, length-to_be_bytes, from_be_bytes-to_be_bytes,
}
use keyvisor.Agent.Serve.{
  Served, read_packet_length, serve_packet, serve_next, serve_loop, serve_connection,
  response_or_failure,
}
use keyvisor.Prelude.{
  ℕ, zero, suc, ◌+◌, ◌-◌, ◌^◌, ◌≤◌, ◌<◌, ◌≡◌, refl, sym, ap, ◌∙◌, ◌⊎◌, inl, inr, true, ◌||◌, Option,
  none, some, List, [], ◌∷◌, ◌++◌, append_assoc, append-nil, arith, ltb, ◌==◌, Bool-cases, length,
  length-append, length-drop, All, Result, ok, err,
}

IsServed : {S : Type 0} → Option (Served S) → Type 0
IsServed {S} o = (r : Served S) × (o ≡ some r)

read_packet_length-lt :
    (input : Bytes) {n : ℕ} {rest : Bytes}
    → read_packet_length input ≡ ok (some (n, rest))
    → length rest < length input
unfolding read_packet_length split_at
read_packet_length-lt [] h = cc
read_packet_length-lt (b ∷ input) h = ground (arith, length-drop 3 input)

-- A packet behind its length.
unfoldable pub framed : Bytes → Bytes
framed packet = to_be_bytes 4 (length packet) ++ packet

unfoldable pub all_framed : List Bytes → Bytes
all_framed [] = []
all_framed (packet ∷ packets) = framed packet ++ all_framed packets

abbrev pub IsSized : Bytes → Type 0
IsSized packet = (0 < length packet) × (length packet ≤ max_packet_length)

read_packet_length-append :
    (n : ℕ) (rest : Bytes)
    → n < 2 ^ 32
    → read_packet_length (to_be_bytes 4 n ++ rest) ≡ ok (some (n, rest))
unfolding read_packet_length
read_packet_length-append n rest h =
    go (to_be_bytes 4 n) (length-to_be_bytes 4 n) (from_be_bytes-to_be_bytes 4 n h)
  where
    go :
        (bytes : Bytes)
        → length bytes ≡ 4
        → from_be_bytes bytes ≡ n
        → read_packet_length (bytes ++ rest) ≡ ok (some (n, rest))
    go [] l e = absurd (omega arith)
    go (b ∷ bytes) l e = rw (split_at-append truncated_packet_length bytes rest 3 (omega arith), e)

length-all_framed :
    (packets : List Bytes) → All IsSized packets → length packets ≤ length (all_framed packets)
unfolding all_framed framed
length-all_framed [] sized = omega arith
length-all_framed (packet ∷ packets) (sized, more) = omega (
  arith,
  length-all_framed packets more,
  length-append (framed packet) (all_framed packets),
  length-append (to_be_bytes 4 (length packet)) packet,
)

module _ {S : Type 0} (handle : Bytes → S → Result AgentError Bytes × S) where
  module _ (loop : Bytes → Bytes → S → Option (Served S)) (fuel : ℕ)
      (step : (input output : Bytes) (runtime : S)
        → length input < fuel
        → IsServed (loop input output runtime)) where
    packet-IsServed :
        (r : Result AgentError (Bytes × Bytes)) (n : ℕ) (input output : Bytes) (runtime : S)
        → split_at truncated_packet input n ≡ r
        → length input < fuel
        → IsServed (elim r [
          | ok p ↦
              loop p.1 (output ++ response_or_failure (handle p.0 runtime).0) (handle p.0 runtime).1
          | err e ↦ some (record { result = err e; output = output; runtime = runtime })
        ])
    unfolding IsServed split_at
    packet-IsServed (err e) n input output runtime same h = (_, refl)
    packet-IsServed (ok (packet, rest)) n input output runtime same h =
        step rest _ _ (ground (arith, length-drop n input))

    serve_packet-IsServed :
        (n : ℕ) (input output : Bytes) (runtime : S)
        → length input < fuel
        → IsServed (serve_packet handle loop n input output runtime)
    unfolding serve_packet IsServed
    serve_packet-IsServed n input output runtime h =
        elim (Bool-cases (n == 0 || ltb max_packet_length n)) [
          | inl e ↦ rw e (_, refl)
          | inr e ↦ rw e (packet-IsServed _ n input output runtime refl h)
        ]

    serve_next-IsServed :
        (r : Result AgentError (Option (ℕ × Bytes))) (input output : Bytes) (runtime : S)
        → read_packet_length input ≡ r
        → length input ≤ fuel
        → IsServed (serve_next handle loop r output runtime)
    unfolding serve_next IsServed
    serve_next-IsServed (ok none) input output runtime same h = (_, refl)
    serve_next-IsServed (err e) input output runtime same h = (_, refl)
    serve_next-IsServed (ok (some (n, rest))) input output runtime same h =
        let shorter = read_packet_length-lt input same in
        serve_packet-IsServed n rest output runtime (omega arith)

  serve_loop-IsServed :
      (fuel : ℕ) (input output : Bytes) (runtime : S)
      → length input < fuel
      → IsServed (serve_loop handle fuel input output runtime)
  unfolding serve_loop
  serve_loop-IsServed zero input output runtime h = absurd (omega arith)
  serve_loop-IsServed (suc fuel) input output runtime h =
      serve_next-IsServed (serve_loop handle fuel) fuel (serve_loop-IsServed fuel) _ input output
        runtime refl (omega arith)

  -- A connection comes to an end, whatever bytes the client sends.
  pub serve_connection_total :
      (input : Bytes) (runtime : S)
      → (r : Served S) × (serve_connection handle input runtime ≡ some r)
  unfolding serve_connection IsServed
  serve_connection_total input runtime =
      serve_loop-IsServed (suc (length input)) input [] runtime (omega arith)

  -- The answers to packets, one after another.
  unfoldable pub answers : List Bytes → S → Bytes
  answers [] runtime = []
  answers (packet ∷ packets) runtime =
      response_or_failure (handle packet runtime).0 ++ answers packets (handle packet runtime).1

  -- The runtime after packets, each handled once.
  unfoldable pub handled : List Bytes → S → S
  handled [] runtime = runtime
  handled (packet ∷ packets) runtime = handled packets (handle packet runtime).1

  serve_loop-framed :
      (packet : Bytes) (fuel : ℕ) (rest output : Bytes) (runtime : S)
      → IsSized packet
      → serve_loop handle (suc fuel) (framed packet ++ rest) output runtime
        ≡ serve_loop handle fuel rest
            (output ++ response_or_failure (handle packet runtime).0)
            (handle packet runtime).1
  unfolding serve_loop serve_next serve_packet framed
  serve_loop-framed packet fuel rest output runtime (positive, fits) =
      rw
        (
          append_assoc (to_be_bytes 4 (length packet)) packet rest,
          read_packet_length-append (length packet) (packet ++ rest) (omega arith),
          split_at-append truncated_packet packet rest (length packet) refl,
        )
        (ground arith)

  serve_loop-all_framed :
      (packets : List Bytes) (fuel : ℕ) (rest output : Bytes) (runtime : S)
      → All IsSized packets
      → serve_loop handle (length packets + fuel) (all_framed packets ++ rest) output runtime
        ≡ serve_loop handle fuel rest (output ++ answers packets runtime) (handled packets runtime)
  unfolding all_framed answers handled
  serve_loop-all_framed [] fuel rest output runtime sized =
      let e : length {A = Bytes} [] + fuel ≡ fuel = omega arith in rw (e, append-nil)
  serve_loop-all_framed (packet ∷ packets) fuel rest output runtime (sized, more) =
      let e : length (packet ∷ packets) + fuel ≡ suc (length packets + fuel) = omega arith in
      rw (
        e,
        append_assoc (framed packet) (all_framed packets) rest,
        serve_loop-framed packet (length packets + fuel) (all_framed packets ++ rest) output runtime
            sized,
        serve_loop-all_framed packets fuel rest _ (handle packet runtime).1 more,
        append_assoc output,
      )

  served-end :
      (fuel : ℕ) (output : Bytes) (runtime : S)
      → serve_loop handle (suc fuel) [] output runtime
        ≡ some (record { result = ok tt; output = output; runtime = runtime })
  unfolding serve_loop serve_next read_packet_length
  served-end fuel output runtime = refl

  served-wrong :
      (n fuel : ℕ) (rest output : Bytes) (runtime : S)
      → (n ≡ 0) ⊎ (max_packet_length < n)
      → n < 2 ^ 32
      → serve_loop handle (suc fuel) (to_be_bytes 4 n ++ rest) output runtime
        ≡ some (record {
          result = err invalid_packet_length;
          output = output ++ failure_response;
          runtime = runtime;
        })
  unfolding serve_loop serve_next serve_packet
  served-wrong n fuel rest output runtime outside fits =
      let refused : (n == 0 || ltb max_packet_length n) ≡ true = ground arith in
      rw (read_packet_length-append n rest fits, refused) refl

  -- The loop behind well-sized packets, with fuel for one round more at least.
  serve_connection-all_framed :
      (packets : List Bytes) (rest : Bytes) (runtime : S)
      → All IsSized packets
      → (fuel : ℕ) × (serve_connection handle (all_framed packets ++ rest) runtime
          ≡ serve_loop handle (suc fuel) rest (answers packets runtime) (handled packets runtime))
  unfolding serve_connection
  serve_connection-all_framed packets rest runtime sized =
      let input = all_framed packets ++ rest in
      let e : suc (length input) ≡ length packets + suc (length input - length packets) =
        omega (arith, length-all_framed packets sized, length-append (all_framed packets) rest) in
      (
        length input - length packets,
        ap (λ k. serve_loop handle k input [] runtime) e
            ∙ serve_loop-all_framed packets _ rest [] runtime sized,
      )

  -- The packets of a client that sends well-sized packets are each handled once and in order, and
  -- their responses, and nothing else, are written; then the connection ends without an error
  -- where the stream does, and with the failure response and an error at a length
  -- of zero or above the bound.
  pub serve_connection_lem :
      (packets : List Bytes) (n : ℕ) (rest : Bytes) (runtime : S)
      → All IsSized packets
      → (n ≡ 0) ⊎ (max_packet_length < n)
      → n < 2 ^ 32
      → (serve_connection handle (all_framed packets) runtime
          ≡ some (record {
            result = ok tt;
            output = answers packets runtime;
            runtime = handled packets runtime;
          }))
        × (serve_connection handle (all_framed packets ++ (to_be_bytes 4 n ++ rest)) runtime
            ≡ some (record {
              result = err invalid_packet_length;
              output = answers packets runtime ++ failure_response;
              runtime = handled packets runtime;
            }))
  serve_connection_lem packets n rest runtime sized outside fits =
      let (_, e₁) = serve_connection-all_framed packets [] runtime sized in
      let (_, e₂) = serve_connection-all_framed packets (to_be_bytes 4 n ++ rest) runtime sized in
      (
        ap (λ i. serve_connection handle i runtime) (sym (append-nil (all_framed packets)))
            ∙ e₁
            ∙ served-end _ _ _,
        e₂ ∙ served-wrong _ _ _ _ _ outside fits,
      )

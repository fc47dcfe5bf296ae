-- ===== src/Protocol/Requests.antt =====
-- `parse_request` against a grammar of packets.
use keyvisor.Prelude.{
  ℕ, ◌<◌, ◌^◌, ◌≡◌, refl, [], ◌∷◌, ◌++◌, ok, length, bind-eq, bind-eq-ok, append-nil, subst, arith,
  ◌≤◌, ◌+◌, length-append, ap, ◌↔◌, ◌∙◌, Bool-cases, ltb, inl, ltb→lt, inr,
}
use keyvisor.Wire.Endian.{Bytes, AreBytes, to_be_bytes, length-to_be_bytes}
use keyvisor.Protocol.Defs.{
  AgentRequest, request_identities, sign, parse_sign, take_string, take_u32, ensure_empty,
  parse_message, parse_identities, max_packet_length, parse_request,
}
use keyvisor.Wire.Strings.{string, length-string}
use keyvisor.Protocol.Strings.{
  take_string-append, take_u32-append, take_string-eq-ok, take_u32-eq-ok,
}

-- The packet that a client sends for a request.
unfoldable pub packet_of : AgentRequest → Bytes
packet_of request_identities = 11 ∷ []
packet_of (sign public_key signed flags) =
    13 ∷ (string public_key ++ (string signed ++ to_be_bytes 4 flags))

abbrev pub FitsWord : AgentRequest → Type 0
FitsWord request_identities = Unit
FitsWord (sign public_key signed flags) = flags < 2 ^ 32

ensure_empty-eq-ok : (input : Bytes) {u : Unit {0}} → ensure_empty input ≡ ok u → input ≡ []
unfolding ensure_empty
ensure_empty-eq-ok [] h = refl
ensure_empty-eq-ok (b ∷ bs) h = cc

take_u32_all : (n : ℕ) → n < 2 ^ 32 → take_u32 (to_be_bytes 4 n) ≡ ok (n, [])
take_u32_all n h = subst (λ s. take_u32 s ≡ ok (n, [])) (append-nil _) (take_u32-append n [] h)

length-sign :
    (public_key signed : Bytes) (flags : ℕ)
    → length (string public_key ++ (string signed ++ to_be_bytes 4 flags))
      ≡ 12 + length public_key + length signed
length-sign public_key signed flags = omega (
  arith,
  length-append {0} (string public_key) (string signed ++ to_be_bytes 4 flags),
  length-append {0} (string signed) (to_be_bytes 4 flags),
  length-string public_key,
  length-string signed,
  length-to_be_bytes 4 flags,
)

parse_sign-append :
    (public_key signed : Bytes) (flags : ℕ)
    → length public_key < 2 ^ 32
    → length signed < 2 ^ 32
    → flags < 2 ^ 32
    → parse_sign (string public_key ++ (string signed ++ to_be_bytes 4 flags))
      ≡ ok (sign public_key signed flags)
unfolding parse_sign ensure_empty
parse_sign-append public_key signed flags hp hs hf =
    bind-eq _ (take_string-append public_key _ hp)
      (bind-eq _ (take_string-append signed _ hs) (bind-eq _ (take_u32_all flags hf) refl))

parse_sign-eq-ok :
    (input public_key signed : Bytes) (flags : ℕ)
    → AreBytes input
    → parse_sign input ≡ ok (sign public_key signed flags)
    → (input ≡ string public_key ++ (string signed ++ to_be_bytes 4 flags)) × (flags < 2 ^ 32)
unfolding parse_sign
parse_sign-eq-ok input public_key signed flags all h =
    let (p, e₁, h₁) = bind-eq-ok (take_string input) _ h in
    let (q, e₂, h₂) = bind-eq-ok (take_string p.1) _ h₁ in
    let (r, e₃, h₃) = bind-eq-ok (take_u32 q.1) _ h₂ in
    let (u, e₄, h₄) = bind-eq-ok (ensure_empty r.1) _ h₃ in
    let (j₁, _, _, all₁) = take_string-eq-ok input all e₁ in
    let (j₂, _, _, all₂) = take_string-eq-ok p.1 all₁ e₂ in
    let (j₃, fits, _) = take_u32-eq-ok q.1 all₂ e₃ in
    let pk : p.0 ≡ public_key = cc in
    let sd : q.0 ≡ signed = cc in
    let fl : r.0 ≡ flags = cc in
    let done = ensure_empty-eq-ok r.1 e₄ in
    (
      cc (j₁, j₂, j₃, pk, sd, fl, done, append-nil (to_be_bytes 4 r.0)),
      subst (λ n. n < 2 ^ 32) fl fits,
    )

parse_sign-ne-identities : (input : Bytes) → ¬ (parse_sign input ≡ ok request_identities)
unfolding parse_sign
parse_sign-ne-identities input h =
    let (p, _, h₁) = bind-eq-ok (take_string input) _ h in
    let (q, _, h₂) = bind-eq-ok (take_string p.1) _ h₁ in
    let (r, _, h₃) = bind-eq-ok (take_u32 q.1) _ h₂ in
    let (u, _, h₄) = bind-eq-ok (ensure_empty r.1) _ h₃ in cc

parse_message-eq-ok :
    (message_type : ℕ) (input : Bytes) (request : AgentRequest)
    → AreBytes input
    → parse_message message_type input ≡ ok request
    → (message_type ∷ input ≡ packet_of request) × FitsWord request
unfolding parse_message packet_of parse_identities
parse_message-eq-ok message_type input request_identities all h =
    ground (arith, parse_sign-ne-identities input, ensure_empty-eq-ok input)
parse_message-eq-ok message_type input (sign public_key signed flags) all h =
    ground (arith, parse_sign-eq-ok input public_key signed flags all)

-- The length of a well-formed packet bounds the lengths of its strings.
parse_message-packet_of :
    (request : AgentRequest) (message_type : ℕ) (input : Bytes)
    → message_type ∷ input ≡ packet_of request
    → length (message_type ∷ input) ≤ max_packet_length
    → FitsWord request
    → parse_message message_type input ≡ ok request
unfolding parse_message packet_of parse_identities ensure_empty
parse_message-packet_of request_identities message_type input e fits _ = ground arith
parse_message-packet_of (sign public_key signed flags) message_type input e fits word =
    let kind : message_type ≡ 13 = ground arith in
    let body : input ≡ string public_key ++ (string signed ++ to_be_bytes 4 flags) = cc in
    let len : length input ≡ 12 + length public_key + length signed =
      ap length body ∙ length-sign public_key signed flags in
    rw (kind, body) (parse_sign-append public_key signed flags (omega arith) (omega arith) word)

-- A packet of bytes is parsed as a request exactly when it is the packet of that request, its
-- length is within the bound, and the flags are a 32-bit word: no other packet is accepted.
pub parse_request-exact :
    (packet : Bytes) (request : AgentRequest)
    → AreBytes packet
    → (parse_request packet ≡ ok request)
      ↔ ((packet ≡ packet_of request) × (length packet ≤ max_packet_length) × FitsWord request)
unfolding parse_request packet_of
parse_request-exact [] request_identities all = (λ h. cc, λ c. cc (c.0))
parse_request-exact [] (sign public_key signed flags) all = (λ h. cc, λ c. cc (c.0))
parse_request-exact (message_type ∷ input) request all =
    elim (Bool-cases (ltb max_packet_length (length (message_type ∷ input)))) [
      | inl long ↦ (λ h. ground arith, λ c. absurd (omega (arith, ltb→lt _ _ long)))
      | inr short ↦ (
        λ h.
            let h' : parse_message message_type input ≡ ok request = ground arith in
            let (e, word) = parse_message-eq-ok message_type input request all.1 h' in
            (e, ground arith, word),
        λ c. rw short (parse_message-packet_of request message_type input c.0 c.1 c.2),
      )
    ]

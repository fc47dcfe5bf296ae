-- ===== src/Agent/Signing.antt =====
-- What a signature response of the agent rests on, and what the history says of a request.
use keyvisor.Core.{no_pin, tpm_pin, ecdsa_nist_p256, ecdsa_nist_p384}
use keyvisor.Tpm.Defs.{no_authorization, pin}
use keyvisor.Tpm.Defs.{TpmAuthorization, no_authorization, pin}
use keyvisor.Core.{KeyUsePolicy, KeyAlgorithm}
use keyvisor.Agent.Defs.{AgentError, disconnected, protocol}
use keyvisor.Wire.Endian.{Bytes}
use keyvisor.Prelude.{
  ℕ, ◌≡◌, refl, sym, ap, ◌∙◌, subst, ◌≢◌, ◌⊎◌, inl, inr, true, false, Option, none, some, List, [],
  ◌∷◌, ◌++◌, arith, Bool-cases, All, bytes_eq, bytes_eq_sound, bytes_eq_refl, Result, ok, err,
  fail_if, bind-eq-ok, fail_if-eq-ok, some-injective, map_err-eq-ok,
}
use keyvisor.Store.Listing
use keyvisor.Store.Defs.{StoredKey, StoreError}
use keyvisor.Agent.Handle.{
  Services, Runtime, sign_with_tpm, sign_with_key, obtain_pin, with_pin, digest, authorization,
  make_signature, find_key, sign_found, sign_listed, handle, handle_request,
}
use keyvisor.Protocol.Defs.{ecdsa_signature_response, parse_request, sign}

-- All but the connection to the TPM.
abbrev Same : Runtime → Runtime → Type 0
Same a b =
    (b.files ≡ a.files)
    × (b.history ≡ a.history)
    × (b.history_enabled ≡ a.history_enabled)
    × (b.store ≡ a.store)

module _ (services : Services) where
  -- A key without a PIN is used without one, a key with a PIN with the one that was entered for its
  -- name.
  abbrev pub IsEntered : KeyUsePolicy → Bytes → TpmAuthorization → Type 0
  IsEntered no_pin name given = given ≡ no_authorization
  IsEntered tpm_pin name given =
      (value : Bytes) × (services.request_pin name ≡ ok value) × (given ≡ pin value)

  -- The digest that goes with an algorithm.
  abbrev pub IsHashed : KeyAlgorithm → Bytes → Bytes → Type 0
  IsHashed ecdsa_nist_p256 signed hash = hash ≡ services.sha256 signed
  IsHashed ecdsa_nist_p384 signed hash = hash ≡ services.sha384 signed

  obtain_pin-IsEntered :
      (use_policy : KeyUsePolicy) (name : Bytes) {value : Bytes}
      → obtain_pin services use_policy name ≡ ok value
      → IsEntered use_policy name (authorization services use_policy value)
  unfolding obtain_pin authorization
  obtain_pin-IsEntered no_pin name h = refl
  obtain_pin-IsEntered tpm_pin name {value} h = (value, h, refl)

  digest-IsHashed :
      (algorithm : KeyAlgorithm) (signed : Bytes)
      → IsHashed algorithm signed (digest services algorithm signed)
  unfolding digest
  digest-IsHashed ecdsa_nist_p256 signed = refl
  digest-IsHashed ecdsa_nist_p384 signed = refl

  -- The steps behind a signature.
  pub record IsSigned (key : StoredKey) (signed response : Bytes) : Type 0 where
    pub given : TpmAuthorization
    pub entered : IsEntered key.summary.use_policy key.summary.name given
    pub stayed : services.gone_before_signing ≡ false
    pub hash : Bytes
    pub hashed : IsHashed key.summary.algorithm signed hash
    pub signature : Bytes
    pub made : services.tpm_sign key hash given ≡ ok signature
    pub remained : services.gone_after_signing ≡ false
    pub answered : ecdsa_signature_response key.summary.algorithm signature ≡ ok response

  make_signature-IsSigned :
      (key : StoredKey) (signed value response : Bytes)
      → obtain_pin services key.summary.use_policy key.summary.name ≡ ok value
      → services.gone_before_signing ≡ false
      → make_signature services key signed value ≡ ok response
      → IsSigned key signed response
  unfolding make_signature
  make_signature-IsSigned key signed value response authorized stayed h =
      let (signature, e₁, h₁) = bind-eq-ok _ _ h in
      let (u, e₂, h₂) = bind-eq-ok (fail_if services.gone_after_signing disconnected) _ h₁ in
      record {
        given = authorization services key.summary.use_policy value;
        entered = obtain_pin-IsEntered key.summary.use_policy key.summary.name authorized;
        stayed = stayed;
        hash = digest services key.summary.algorithm signed;
        hashed = digest-IsHashed key.summary.algorithm signed;
        signature = signature;
        made = map_err-eq-ok _ _ e₁;
        remained = fail_if-eq-ok _ _ e₂;
        answered = map_err-eq-ok protocol _ h₂;
      }

  -- A signature leaves nothing but the connection to the TPM behind.
  sign_with_tpm-eq-ok :
      (key : StoredKey) (signed value response : Bytes) (runtime : Runtime)
      → (sign_with_tpm services key signed value runtime).0 ≡ ok response
      → make_signature services key signed value ≡ ok response
  unfolding sign_with_tpm
  sign_with_tpm-eq-ok key signed value response runtime h = ground arith

  with_pin-IsSigned :
      (key : StoredKey) (signed response : Bytes) (runtime : Runtime) (r : Result AgentError Bytes)
      → obtain_pin services key.summary.use_policy key.summary.name ≡ r
      → (with_pin services key signed runtime r).0 ≡ ok response
      → IsSigned key signed response
  unfolding with_pin
  with_pin-IsSigned key signed response runtime (err e) same h = cc
  with_pin-IsSigned key signed response runtime (ok value) same h =
      let stayed : services.gone_before_signing ≡ false = ground arith in
      make_signature-IsSigned key signed value response same stayed
        (sign_with_tpm-eq-ok key signed value response runtime (rw stayed at h))

  sign_with_key-IsSigned :
      (key : StoredKey) (signed response : Bytes) (runtime : Runtime)
      → (sign_with_key services key signed runtime).0 ≡ ok response
      → IsSigned key signed response
  unfolding sign_with_key
  sign_with_key-IsSigned key signed response runtime h =
      with_pin-IsSigned key signed response runtime _ refl h

  pub with_pin-files :
      (key : StoredKey) (signed : Bytes) (runtime : Runtime) (r : Result AgentError Bytes)
      → Same runtime (with_pin services key signed runtime r).1
  unfolding with_pin sign_with_tpm
  with_pin-files key signed runtime (err e) = (refl, refl, refl, refl)
  with_pin-files key signed runtime (ok value) = ground arith

  -- The key is the first of the list with the public key.
  abbrev pub IsFirst : Bytes → List StoredKey → StoredKey → Type 0
  IsFirst public_key keys key =
      (before : List StoredKey) × (after : List StoredKey) × (keys ≡ before ++ key ∷ after)
      × All (λ k. k.summary.public_key ≢ public_key) before
      × (key.summary.public_key ≡ public_key)

  differs :
      (public_key : Bytes) (key : StoredKey)
      → bytes_eq key.summary.public_key public_key ≡ false
      → key.summary.public_key ≢ public_key
  differs public_key key h e =
      let same : bytes_eq key.summary.public_key public_key ≡ true =
        ap (λ b. bytes_eq b public_key) e ∙ bytes_eq_refl public_key in
      cc

  pub find_key-cases :
      (public_key : Bytes) (keys : List StoredKey)
      → ((find_key services public_key keys ≡ none)
          × All (λ k. k.summary.public_key ≢ public_key) keys)
        ⊎ ((key : StoredKey) × (find_key services public_key keys ≡ some key)
            × IsFirst public_key keys key)
  unfolding find_key
  find_key-cases public_key [] = inl (refl, tt)
  find_key-cases public_key (k ∷ keys) =
      elim (Bool-cases (bytes_eq k.summary.public_key public_key)) [
        | inl same ↦ inr (
          k,
          rw same refl,
          ([], keys, refl, tt, bytes_eq_sound k.summary.public_key public_key same),
        )
        | inr other ↦
            let ne = differs public_key k other in
            elim (find_key-cases public_key keys) [
              | inl (e, all) ↦ inl (rw other e, (ne, all))
              | inr (key, e, (before, after, parts, all, same)) ↦
                  inr (key, rw other e, (k ∷ before, after, ap (λ l. k ∷ l) parts, (ne, all), same))
            ]
      ]

  find_key-IsFirst :
      (public_key : Bytes) (keys : List StoredKey) (key : StoredKey)
      → find_key services public_key keys ≡ some key
      → IsFirst public_key keys key
  find_key-IsFirst public_key keys key h = elim (find_key-cases public_key keys) [
    | inl (e, all) ↦ cc
    | inr (key', e, first) ↦
        subst (λ k. IsFirst public_key keys k) (some-injective (sym e ∙ h)) first
  ]

  sign_found-IsSigned :
      (signed response : Bytes) (runtime : Runtime) (found : Option StoredKey)
      → (sign_found services signed runtime found).0 ≡ ok response
      → (key : StoredKey) × (found ≡ some key) × IsSigned key signed response
  unfolding sign_found
  sign_found-IsSigned signed response runtime none h = cc
  sign_found-IsSigned signed response runtime (some key) h =
      (key, refl, sign_with_key-IsSigned key signed response runtime h)

  sign_listed-IsSigned :
      (public_key signed response : Bytes) (runtime : Runtime)
      (listed : Result StoreError (List StoredKey))
      → (sign_listed services public_key signed runtime listed).0 ≡ ok response
      → (keys : List StoredKey) × (listed ≡ ok keys)
        × ((key : StoredKey) × IsFirst public_key keys key × IsSigned key signed response)
  unfolding sign_listed
  sign_listed-IsSigned public_key signed response runtime (err e) h = cc
  sign_listed-IsSigned public_key signed response runtime (ok keys) h =
      let (key, here, is-signed) =
        sign_found-IsSigned signed response runtime (find_key services public_key keys) h in
      (keys, refl, (key, find_key-IsFirst public_key keys key here, is-signed))

  -- Who is answered a signature: the request has no flags; the client has not hung up, neither at
  -- the start nor before nor after the signature; the store is listed without an error, and the key
  -- is the first with the requested public key; a key with a PIN got the one that was entered for
  -- its name, a key without one none; and the answer encodes the TPM's signature with that key and
  -- authorization over the data's SHA-256 digest for P-256, SHA-384 for P-384.
  pub handle-IsSigned :
      (packet public_key signed response : Bytes) (flags : ℕ) (runtime : Runtime)
      → parse_request packet ≡ ok (sign public_key signed flags)
      → (handle services packet runtime).0 ≡ ok response
      → (flags ≡ 0)
        × (services.gone_at_start ≡ false)
        × ((keys : List StoredKey) × ((Listing.list runtime.store runtime.files).0 ≡ ok keys)
            × ((key : StoredKey) × IsFirst public_key keys key × IsSigned key signed response))
  unfolding handle handle_request
  handle-IsSigned packet public_key signed response flags runtime parsed h =
      let stayed : services.gone_at_start ≡ false = ground arith in
      let no_flags : flags ≡ 0 = ground arith in
      let l = Listing.list runtime.store runtime.files in
      let h' : (sign_listed services public_key signed (record runtime { files = l.1 }) l.0).0
          ≡ ok response =
        ground arith in
      (no_flags, stayed, sign_listed-IsSigned public_key signed response _ l.0 h')

-- ===== src/Tpm/Authorized.antt =====
-- Which digests and authorizations a key takes.
use keyvisor.Core.{no_pin, tpm_pin, ecdsa_nist_p256, ecdsa_nist_p384}
use keyvisor.Tpm.Defs.{no_authorization, pin}
use keyvisor.Tpm.Codec.{authorization_value}
use keyvisor.Wire.Endian.{Bytes}
use keyvisor.Tpm.Defs.{TpmAuthorization}
use keyvisor.Core.{KeyUsePolicy, KeyAlgorithm, digest_size}
use keyvisor.Prelude.{
  ℕ, ◌≤◌, ◌<◌, ◌≡◌, sym, ap, inl, inr, [], ◌∷◌, arith, leb, Bool-cases, length, ok, ok-injective,
}

-- A digest of SHA-256 or of SHA-384.
abbrev pub IsDigestFor : KeyAlgorithm → Bytes → Type 0
IsDigestFor ecdsa_nist_p256 digest = length digest ≡ 32
IsDigestFor ecdsa_nist_p384 digest = length digest ≡ 48

pub digest_size-IsDigestFor :
    (algorithm : KeyAlgorithm) (digest : Bytes)
    → length digest ≡ digest_size algorithm
    → IsDigestFor algorithm digest
unfolding digest_size
digest_size-IsDigestFor ecdsa_nist_p256 digest h = h
digest_size-IsDigestFor ecdsa_nist_p384 digest h = h

-- The authorizations that may use a key of a policy, of which the PIN fits the TPM's buffer, and the
-- value that each one sets.
abbrev pub MayUse : ℕ → TpmAuthorization → KeyUsePolicy → Bytes → Type 0
MayUse capacity no_authorization use_policy value = (use_policy ≡ no_pin) × (value ≡ [])
MayUse capacity (pin secret) use_policy value =
    (use_policy ≡ tpm_pin) × (0 < length secret) × (length secret ≤ capacity) × (value ≡ secret)

pub authorization_value-MayUse :
    (capacity : ℕ) (given : TpmAuthorization) {auth : Bytes} {use_policy : KeyUsePolicy}
    → authorization_value capacity given ≡ ok (auth, use_policy)
    → MayUse capacity given use_policy auth
unfolding authorization_value
authorization_value-MayUse capacity no_authorization h =
    let e = ok-injective h in (sym (ap (λ p. p.1) e), sym (ap (λ p. p.0) e))
authorization_value-MayUse capacity (pin []) h = cc
authorization_value-MayUse capacity (pin (b ∷ bs)) h =
    elim (Bool-cases (leb (length (b ∷ bs)) capacity)) [
      | inl fits ↦
          let e = ok-injective (rw fits at h) in
          (sym (ap (λ p. p.1) e), omega arith, ground arith, sym (ap (λ p. p.0) e))
      | inr too_long ↦ absurd (ground arith)
    ]

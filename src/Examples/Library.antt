-- ===== src/Examples/Library.antt =====
-- A library of the TPM that keeps its handles in a list.
use keyvisor.Tpm.Handles.{held, remove, brought}
use keyvisor.Tpm.Generated.{IsFaithful}
use keyvisor.Tpm.Sessions.{IsAccounted}
use keyvisor.Tpm.Tss.{Tss, TssError, wrapper, response, lockout, ec_dsa_signature, ecc_curves}
use keyvisor.Wire.Endian.{Bytes}
use keyvisor.Tpm.Template.{
  Attributes, Public, ecc, sha256, sha384, other_hash, other_public, ec_dsa, other_scheme,
  nist_p256, nist_p384, other_curve, no_symmetric, other_symmetric, no_derivation, other_derivation,
  HashingAlgorithm, EccScheme, EccCurve, Symmetric, KeyDerivation, EccParameters,
}
use keyvisor.Prelude.{
  ℕ, zero, suc, ◌≡◌, refl, ap, subst, Bool, true, false, Option, none, some, List, [], ◌∷◌, ◌++◌,
  leb, ◌==◌, if◌then◌else◌, length, take, drop, take-append, drop-append, Result, ok, err,
  ok-injective,
}

abbrev pub number_of : Bool → ℕ
number_of true = 1
number_of false = 0

abbrev pub is_one : ℕ → Bool
is_one n = n == 1

is_one-number_of : (b : Bool) → is_one (number_of b) ≡ b
is_one-number_of true = refl
is_one-number_of false = refl

abbrev pub flags : Attributes → Bytes → Bytes
flags a rest =
    number_of a.fixed_tpm
    ∷ number_of a.st_clear
    ∷ number_of a.fixed_parent
    ∷ number_of a.sensitive_data_origin
    ∷ number_of a.user_with_auth
    ∷ number_of a.admin_with_policy
    ∷ number_of a.no_da
    ∷ number_of a.encrypted_duplication
    ∷ number_of a.restricted
    ∷ number_of a.decrypt
    ∷ number_of a.sign_encrypt
    ∷ number_of a.x509_sign
    ∷ rest

abbrev pub hash_number : HashingAlgorithm → ℕ
hash_number sha256 = 1
hash_number sha384 = 2
hash_number other_hash = 0

abbrev pub hash_of : ℕ → HashingAlgorithm
hash_of n = if n == 1 then sha256 else if n == 2 then sha384 else other_hash

abbrev pub scheme_number : EccScheme → ℕ
scheme_number (ec_dsa hash) = suc (hash_number hash)
scheme_number other_scheme = 0

abbrev pub scheme_of : ℕ → EccScheme
scheme_of zero = other_scheme
scheme_of (suc n) = ec_dsa (hash_of n)

abbrev pub curve_number : EccCurve → ℕ
curve_number nist_p256 = 1
curve_number nist_p384 = 2
curve_number other_curve = 0

abbrev pub curve_of : ℕ → EccCurve
curve_of n = if n == 1 then nist_p256 else if n == 2 then nist_p384 else other_curve

abbrev pub symmetric_number : Symmetric → ℕ
symmetric_number no_symmetric = 0
symmetric_number other_symmetric = 1

abbrev pub symmetric_of : ℕ → Symmetric
symmetric_of n = if n == 0 then no_symmetric else other_symmetric

abbrev pub derivation_number : KeyDerivation → ℕ
derivation_number no_derivation = 0
derivation_number other_derivation = 1

abbrev pub derivation_of : ℕ → KeyDerivation
derivation_of n = if n == 0 then no_derivation else other_derivation

-- Public areas of elliptic curve keys.
abbrev pub marshall_key : Public → Result TssError Bytes
marshall_key (ecc a name_hash auth_policy p x y) = ok (
    flags a (
      hash_number name_hash
      ∷ symmetric_number p.symmetric
      ∷ scheme_number p.scheme
      ∷ curve_number p.curve
      ∷ derivation_number p.derivation
      ∷ length auth_policy
      ∷ length x
      ∷ (auth_policy ++ (x ++ y))))
marshall_key (other_public a) = err wrapper

abbrev pub point_of : ℕ → Bytes → (Bytes → Bytes → Public) → Public
point_of n bytes made = made (take n bytes) (drop n bytes)

abbrev pub parameters_of :
    Bytes → (HashingAlgorithm → Bytes → EccParameters → Bytes → Bytes → Public) → Option Public
parameters_of (name_hash ∷ cipher ∷ scheme ∷ curve ∷ kdf ∷ n ∷ m ∷ bytes) made = some (
    point_of m (drop n bytes) (
      made (hash_of name_hash) (take n bytes) (record {
        symmetric = symmetric_of cipher;
        scheme = scheme_of scheme;
        curve = curve_of curve;
        derivation = derivation_of kdf;
      })))
parameters_of bytes made = none

abbrev pub unmarshall_key : Bytes → Option Public
unmarshall_key (a ∷ b ∷ c ∷ d ∷ e ∷ f ∷ g ∷ h ∷ i ∷ j ∷ k ∷ l ∷ bytes) = parameters_of bytes (
    ecc (record {
      fixed_tpm = is_one a;
      st_clear = is_one b;
      fixed_parent = is_one c;
      sensitive_data_origin = is_one d;
      user_with_auth = is_one e;
      admin_with_policy = is_one f;
      no_da = is_one g;
      encrypted_duplication = is_one h;
      restricted = is_one i;
      decrypt = is_one j;
      sign_encrypt = is_one k;
      x509_sign = is_one l;
    }))
unmarshall_key bytes = none

abbrev pub with_point : Public → Public
with_point (ecc a name_hash auth_policy parameters x y) =
    ecc a name_hash auth_policy parameters (7 ∷ []) (8 ∷ [])
with_point (other_public a) = other_public a

abbrev pub load_key : Bytes → List ℕ → Result TssError ℕ × List ℕ
load_key [] handles = (err wrapper, handles)
load_key (b ∷ bs) handles = (ok 7, 7 ∷ handles)

-- Whether the authorization of a handle can be set.
abbrev pub library : Bool → Tss
library sets_auth = record {
  State = List ℕ;
  auth_capacity = 32;
  unmarshall = unmarshall_key;
  marshall = marshall_key;
  fits_private = λ private. leb (length private) 100;
  digest_of = λ digest. if leb (length digest) 64 then ok tt else err wrapper;
  hashcheck_ticket = ok tt;
  start_auth_session = λ parent bind handles. (ok (some 2), 2 ∷ handles);
  tr_sess_set_attributes = λ session handles. (ok tt, handles);
  flush_context = λ h handles. (ok tt, remove h handles);
  tr_set_auth =
      λ h auth handles. (if sets_auth then ok tt else err (response (some lockout)), handles);
  tr_get_name = λ h handles. (ok (0xab ∷ []), handles);
  load = λ session parent private public handles. load_key private handles;
  create = λ session parent template auth handles. (ok (5 ∷ 6 ∷ [], with_point template), handles);
  sign = λ session h digest hash handles. (ok (ec_dsa_signature (1 ∷ []) (2 ∷ [])), handles);
  get_capability = λ curve handles. (ok (ecc_curves (curve ∷ [])), handles);
  get_tpm_property = λ property handles. (ok (some 3), handles);
}

abbrev pub handles_of : (sets_auth : Bool) → (library sets_auth).State → List ℕ
handles_of sets_auth handles = handles

load_key-held :
    (private : Bytes) (handles : List ℕ)
    → (load_key private handles).1 ≡ held (brought some (load_key private handles).0) handles
load_key-held [] handles = refl
load_key-held (b ∷ bs) handles = refl

pub library-IsAccounted :
    (sets_auth : Bool) → IsAccounted (library sets_auth) (handles_of sets_auth)
library-IsAccounted sets_auth = record {
  start_opens = λ parent bind handles. refl;
  load_opens = λ session parent private public handles. load_key-held private handles;
  attributes_keep = λ session s. refl;
  flush_releases = λ h s. refl;
  auth_keeps = λ h auth s. refl;
  name_keeps = λ h s. refl;
  create_keeps = λ session parent public auth s. refl;
  sign_keeps = λ session h digest hash s. refl;
  capability_keeps = λ curve s. refl;
}

flags-read :
    (a : Attributes)
    → record {
      fixed_tpm = is_one (number_of a.fixed_tpm);
      st_clear = is_one (number_of a.st_clear);
      fixed_parent = is_one (number_of a.fixed_parent);
      sensitive_data_origin = is_one (number_of a.sensitive_data_origin);
      user_with_auth = is_one (number_of a.user_with_auth);
      admin_with_policy = is_one (number_of a.admin_with_policy);
      no_da = is_one (number_of a.no_da);
      encrypted_duplication = is_one (number_of a.encrypted_duplication);
      restricted = is_one (number_of a.restricted);
      decrypt = is_one (number_of a.decrypt);
      sign_encrypt = is_one (number_of a.sign_encrypt);
      x509_sign = is_one (number_of a.x509_sign);
    }
      ≡ a
flags-read a = λ i. record {
  fixed_tpm = is_one-number_of a.fixed_tpm i;
  st_clear = is_one-number_of a.st_clear i;
  fixed_parent = is_one-number_of a.fixed_parent i;
  sensitive_data_origin = is_one-number_of a.sensitive_data_origin i;
  user_with_auth = is_one-number_of a.user_with_auth i;
  admin_with_policy = is_one-number_of a.admin_with_policy i;
  no_da = is_one-number_of a.no_da i;
  encrypted_duplication = is_one-number_of a.encrypted_duplication i;
  restricted = is_one-number_of a.restricted i;
  decrypt = is_one-number_of a.decrypt i;
  sign_encrypt = is_one-number_of a.sign_encrypt i;
  x509_sign = is_one-number_of a.x509_sign i;
}

hash_of-hash_number : (hash : HashingAlgorithm) → hash_of (hash_number hash) ≡ hash
hash_of-hash_number sha256 = refl
hash_of-hash_number sha384 = refl
hash_of-hash_number other_hash = refl

scheme_of-scheme_number : (scheme : EccScheme) → scheme_of (scheme_number scheme) ≡ scheme
scheme_of-scheme_number (ec_dsa hash) = ap ec_dsa (hash_of-hash_number hash)
scheme_of-scheme_number other_scheme = refl

curve_of-curve_number : (curve : EccCurve) → curve_of (curve_number curve) ≡ curve
curve_of-curve_number nist_p256 = refl
curve_of-curve_number nist_p384 = refl
curve_of-curve_number other_curve = refl

symmetric_of-symmetric_number : (s : Symmetric) → symmetric_of (symmetric_number s) ≡ s
symmetric_of-symmetric_number no_symmetric = refl
symmetric_of-symmetric_number other_symmetric = refl

derivation_of-derivation_number : (d : KeyDerivation) → derivation_of (derivation_number d) ≡ d
derivation_of-derivation_number no_derivation = refl
derivation_of-derivation_number other_derivation = refl

parameters-read :
    (p : EccParameters)
    → record {
      symmetric = symmetric_of (symmetric_number p.symmetric);
      scheme = scheme_of (scheme_number p.scheme);
      curve = curve_of (curve_number p.curve);
      derivation = derivation_of (derivation_number p.derivation);
    }
      ≡ p
parameters-read p = λ i. record {
  symmetric = symmetric_of-symmetric_number p.symmetric i;
  scheme = scheme_of-scheme_number p.scheme i;
  curve = curve_of-curve_number p.curve i;
  derivation = derivation_of-derivation_number p.derivation i;
}

unmarshall_key-marshall_key :
    (public : Public) (bytes : Bytes)
    → marshall_key public ≡ ok bytes
    → unmarshall_key bytes ≡ some public
unmarshall_key-marshall_key (ecc a name_hash auth_policy p x y) bytes e =
    subst (λ b. unmarshall_key b ≡ some (ecc a name_hash auth_policy p x y)) (ok-injective e)
      (rw
        (
          flags-read a,
          parameters-read p,
          hash_of-hash_number name_hash,
          take-append auth_policy (x ++ y),
          drop-append auth_policy (x ++ y),
          take-append x y,
          drop-append x y,
        )
        refl)
unmarshall_key-marshall_key (other_public a) bytes e = cc

pub library-IsFaithful : IsFaithful (library true)
library-IsFaithful = record {
  unmarshall-marshall = unmarshall_key-marshall_key;
  created_fits = λ session parent template auth s private public e.
      subst (λ b. leb (length b) 100 ≡ true) (ap (λ p. p.0) (ok-injective e)) refl;
}

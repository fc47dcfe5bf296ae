-- ===== src/Tpm/Leaves.antt =====
-- A way of `sign` that leaves a key loaded.
use keyvisor.Tpm.Released.{load-Tracks}
use keyvisor.Core.{KeyAlgorithm}
use keyvisor.Tpm.Defs.{TpmObject, TpmAuthorization}
use keyvisor.Tpm.Esapi.{sign, check_request, load, from_tss}
use keyvisor.Wire.Endian.{Bytes}
use keyvisor.Tpm.Sessions.{IsAccounted, Tracks-ok}
use keyvisor.Tpm.Tss.{Tss, TssError, map_tss_error}
use keyvisor.Prelude.{ℕ, ◌≡◌, ap, ◌∙◌, some, List, ◌∷◌, ok, err, map_err, then_do-eq, then_do-fails}

module _ (t : Tss) (live : t.State → List ℕ) (laws : IsAccounted t live) (parent : ℕ)
    (parent_name : Bytes) where
  -- Where the key is loaded and its authorization then cannot be set, `sign` fails with that error
  -- and the key stays loaded, beside the handles from before.
  pub sign-leaves :
      (object : TpmObject) (algorithm : KeyAlgorithm) (digest : Bytes) (given : TpmAuthorization)
      (s : t.State) {auth : Bytes} {child : ℕ} {e : TssError}
      → check_request t object algorithm digest given ≡ ok auth
      → (load t parent parent_name object algorithm s).0 ≡ ok child
      → (t.tr_set_auth child auth (load t parent parent_name object algorithm s).1).0 ≡ err e
      → ((sign t parent parent_name object algorithm digest given s).0 ≡ err (map_tss_error e))
        × (live (sign t parent parent_name object algorithm digest given s).1 ≡ child ∷ live s)
  unfolding sign from_tss
  sign-leaves object algorithm digest given s {auth} {child} checked loaded failed =
      let loading = load t parent parent_name object algorithm s in
      let setting = from_tss t (t.tr_set_auth child auth loading.1) in
      let same =
        then_do-eq (check_request t object algorithm digest given, s) _ checked
        ∙ then_do-eq loading _ loaded
        ∙ then_do-fails setting _ (ap (map_err map_tss_error) failed) in
      let left = load-Tracks t live laws parent parent_name object algorithm s in
      (
        ap (λ r. r.0) same,
        ap (λ r. live r.1) same
            ∙ laws.auth_keeps child auth loading.1
            ∙ Tracks-ok t live 2 some (live s) loading left loaded,
      )

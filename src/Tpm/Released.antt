-- ===== src/Tpm/Released.antt =====
-- The handles around `load`, `sign` and `generate`.
use keyvisor.Tpm.Handles.{
  Leaks, Brings, nothing, after_flush, held-nothing, remove, remove-held, Leaks-more, Leaks-remove,
  Leaks-cons,
}
use keyvisor.Tpm.Generate.{created_name, finish_key, generate}
use keyvisor.Tpm.Template.{Public, hash_algorithm, create_public, ecc_curve}
use keyvisor.Tpm.Defs.{TpmError, TpmObject, TpmAuthorization}
use keyvisor.Core.{KeyAlgorithm, KeyUsePolicy, KeySummary}
use keyvisor.Wire.Endian.{Bytes}
use keyvisor.Tpm.Esapi.{
  from_tss, sign_loaded, both, load, sign, with_encrypted_session, signature_bytes,
}
use keyvisor.Tpm.Tss.{Tss, TssError, Signature, map_tss_error}
use keyvisor.Prelude.{
  ℕ, ◌≡◌, refl, sym, ap, ◌∙◌, subst, none, some, List, [], ◌∷◌, arith, Result, ok, err, map_err,
  then_do, then_do-post,
}
use keyvisor.Tpm.Sessions.{
  Tracks, IsAccounted, then_do-Tracks, from_tss-Tracks, with_encrypted_session-Tracks, Tracks-keeps,
  Tracks-more,
}

-- The handles after an operation are those of before where it succeeds; where it fails, at most two
-- more are open.
abbrev pub IsReleased :
    {E A : Type 0} (t : Tss) → (t.State → List ℕ) → List ℕ → Result E A × t.State → Type 0
IsReleased t live handles (ok a, s) = live s ≡ handles
IsReleased t live handles (err e, s) = Leaks 2 handles (live s)

few_nothing : {A : Type 0} → Brings {A = A} nothing 0
few_nothing a = omega arith

few_some : Brings {A = ℕ} some 1
few_some a = omega arith

module _ (t : Tss) (live : t.State → List ℕ) where
  -- What is released tracks no handle.
  IsReleased-Tracks :
      {E A : Type 0} (handles : List ℕ) (m : Result E A × t.State)
      → Tracks t live 2 nothing handles m
      → IsReleased t live handles m
  IsReleased-Tracks handles (ok a, s) h = h
  IsReleased-Tracks handles (err e, s) h = h

  -- A step that leaves the handles, and the rest after it.
  then_do-keeps :
      {E A B : Type 0} (handles : List ℕ) (m : Result E A × t.State)
      (k : A → t.State → Result E B × t.State)
      → live m.1 ≡ handles
      → ((a : A) → m.0 ≡ ok a → Tracks t live 2 nothing handles (k a m.1))
      → Tracks t live 2 nothing handles (then_do m k)
  then_do-keeps handles m k kept rest =
      then_do-post (Tracks t live 2 nothing handles) m k (λ e failed. ([], kept, omega arith)) rest

  -- A step while one handle more is open: a failure leaves it.
  then_do-holds :
      {E A B : Type 0} (child : ℕ) (handles : List ℕ) (m : Result E A × t.State)
      (k : A → t.State → Result E B × t.State)
      → live m.1 ≡ child ∷ handles
      → ((a : A) → m.0 ≡ ok a → Tracks t live 2 nothing handles (k a m.1))
      → Tracks t live 2 nothing handles (then_do m k)
  then_do-holds child handles m k kept rest =
      then_do-post (Tracks t live 2 nothing handles) m k
        (λ e failed. (child ∷ [], kept, omega arith)) rest

module _ (t : Tss) (live : t.State → List ℕ) (laws : IsAccounted t live) (parent : ℕ) where
  -- The end of `sign_loaded`, by the result of the signature and the release of the key.
  finish-Tracks :
      (algorithm : KeyAlgorithm) (child : ℕ) (handles : List ℕ)
      (m : Result TpmError Signature × t.State)
      → Tracks t live 1 nothing (child ∷ handles) m
      → let flush = from_tss t (t.flush_context child m.1) in
        Tracks t live 2 nothing handles
          (then_do (both m.0 flush.0, flush.1) (λ made s. (signature_bytes algorithm made, s)))
  unfolding from_tss both then_do
  finish-Tracks algorithm child handles (r, s) tracked =
      released r tracked (t.flush_context child s).0 (laws.flush_releases child s)
    where
      released :
          (r : Result TpmError Signature)
          → Tracks t live 1 nothing (child ∷ handles) (r, s)
          → (f : Result TssError (Unit {0}))
          → live (t.flush_context child s).1 ≡ after_flush child f (live s)
          → Tracks t live 2 nothing handles (
              then_do
                (both r (map_err map_tss_error f), (t.flush_context child s).1)
                (λ made s'. (signature_bytes algorithm made, s')))
      released (ok a) h (ok u) e =
          Tracks-keeps t live 2 handles _ (e ∙ ap (remove child) h ∙ remove-held child none handles)
      released (ok a) h (err x) e = (child ∷ [], e ∙ h, omega arith)
      released (err x) h (ok u) e =
          subst (λ l. Leaks 2 handles l) (sym e) (Leaks-more (omega arith) (Leaks-remove child h))
      released (err x) h (err y) e = subst (λ l. Leaks 2 handles l) (sym e) (Leaks-cons h)

  sign_loaded-Tracks :
      (algorithm : KeyAlgorithm) (digest : Bytes) (child : ℕ) (s : t.State) (handles : List ℕ)
      → live s ≡ child ∷ handles
      → Tracks t live 2 nothing handles (sign_loaded t parent algorithm digest child s)
  unfolding sign_loaded
  sign_loaded-Tracks algorithm digest child s handles h =
      let operation : ℕ → t.State → Result TssError Signature × t.State =
        λ session. t.sign session child digest (hash_algorithm algorithm) in
      let signed =
        with_encrypted_session-Tracks t live laws 0 nothing parent (some child) operation s
          few_nothing
          (λ session s'.
            laws.sign_keeps session child digest (hash_algorithm algorithm) s'
            ∙ sym (held-nothing (operation session s').0 (live s'))) in
      let made = from_tss-Tracks t live laws 1 nothing (live s) _ signed in
      finish-Tracks algorithm child handles
        (from_tss t (with_encrypted_session t parent (some child) operation s))
        (subst
          (λ l.
            Tracks t live 1 nothing l
              (from_tss t (with_encrypted_session t parent (some child) operation s)))
          h made)

  -- The release of the key, and the rest after it.
  release-Tracks :
      {B : Type 0} (child : ℕ) (s : t.State) (handles : List ℕ)
      (k : Unit {0} → t.State → Result TpmError B × t.State)
      → live s ≡ child ∷ handles
      → ((s' : t.State) → live s' ≡ handles → Tracks t live 2 nothing handles (k tt s'))
      → Tracks t live 2 nothing handles (then_do (from_tss t (t.flush_context child s)) k)
  unfolding from_tss then_do
  release-Tracks {B = B} child s handles k h rest =
      released (t.flush_context child s).0 (laws.flush_releases child s)
    where
      released :
          (f : Result TssError (Unit {0}))
          → live (t.flush_context child s).1 ≡ after_flush child f (live s)
          → Tracks t live 2 nothing handles
              (then_do (map_err map_tss_error f, (t.flush_context child s).1) k)
      released (ok u) e =
          rest (t.flush_context child s).1
            (e ∙ ap (remove child) h ∙ remove-held child none handles)
      released (err x) e = (child ∷ [], e ∙ h, omega arith)

module _ (t : Tss) (live : t.State → List ℕ) (laws : IsAccounted t live) (parent : ℕ)
    (parent_name : Bytes) where
  load_in_session-Tracks :
      (private : Bytes) (public : Public) (s : t.State)
      → Tracks t live 2 some (live s) (
          from_tss t (
            with_encrypted_session t parent none
              (λ session. t.load session parent private public)
              s))
  load_in_session-Tracks private public s = from_tss-Tracks t live laws 2 some (live s) _ (
      with_encrypted_session-Tracks t live laws 1 some parent none
        (λ session. t.load session parent private public) s few_some
        (λ session s'. laws.load_opens session parent private public s'))

  pub load-Tracks :
      (object : TpmObject) (algorithm : KeyAlgorithm) (s : t.State)
      → Tracks t live 2 some (live s) (load t parent parent_name object algorithm s)
  unfolding load
  load-Tracks object algorithm s =
      then_do-post (Tracks t live 2 some (live s)) _ _ (λ e failed. ([], refl, omega arith))
        λ public checked. load_in_session-Tracks object.wrapped_private public s

  sign-Tracks :
      (object : TpmObject) (algorithm : KeyAlgorithm) (digest : Bytes) (given : TpmAuthorization)
      (s : t.State)
      → Tracks t live 2 nothing (live s) (sign t parent parent_name object algorithm digest given s)
  unfolding sign from_tss
  sign-Tracks object algorithm digest given s =
      then_do-keeps t live (live s) _ _ refl λ auth checked.
        then_do-Tracks t live 2 some nothing (live s) _ _ (load-Tracks object algorithm s)
          λ child loaded opened.
            let s₂ = (load t parent parent_name object algorithm s).1 in
            let kept = laws.auth_keeps child auth s₂ ∙ opened in
            then_do-holds t live child (live s) (from_tss t (t.tr_set_auth child auth s₂)) _ kept
              λ u set. then_do-holds t live child (live s) _ _ kept λ v made.
                then_do-holds t live child (live s) _ _ kept λ w ticket.
                  sign_loaded-Tracks t live laws parent algorithm digest child _ (live s) kept

  created_name-Tracks :
      (private : Bytes) (public : Public) (s : t.State)
      → Tracks t live 2 nothing (live s) (created_name t parent private public s)
  unfolding created_name from_tss
  created_name-Tracks private public s =
      then_do-Tracks t live 2 some nothing (live s) _ _ (load_in_session-Tracks private public s)
        λ child loaded opened.
          let kept = laws.name_keeps child _ ∙ opened in
          then_do-holds t live child (live s) (from_tss t (t.tr_get_name child _)) _ kept
            λ name read. release-Tracks t live laws parent child _ (live s) _ kept (λ s' e. e)

  finish_key-Tracks :
      (name : Bytes) (algorithm : KeyAlgorithm) (use_policy : KeyUsePolicy)
      (created : Bytes × Public) (s : t.State)
      → Tracks t live 2 nothing
          (live s)
          (finish_key t parent parent_name name algorithm use_policy created s)
  unfolding finish_key
  finish_key-Tracks name algorithm use_policy (private, public) s =
      then_do-keeps t live (live s) _ _ refl λ public_key _.
        then_do-Tracks t live 2 nothing nothing (live s) _ _ (created_name-Tracks private public s)
          λ child_name _ kept. then_do-keeps t live (live s) _ _ kept (λ _ _. kept)

  create-Tracks :
      (public : Public) (auth : Bytes) (s : t.State)
      → Tracks t live 2 nothing (live s) (
          from_tss t (
            with_encrypted_session t parent none
              (λ session. t.create session parent public auth)
              s))
  create-Tracks public auth s =
      let operation : ℕ → t.State → Result TssError (Bytes × Public) × t.State =
        λ session. t.create session parent public auth in
      let created =
        with_encrypted_session-Tracks t live laws 0 nothing parent none operation s few_nothing
          (λ session s'.
            laws.create_keeps session parent public auth s'
            ∙ sym (held-nothing (operation session s').0 (live s'))) in
      from_tss-Tracks t live laws 2 nothing (live s) _ (Tracks-more t live (live s) _ created)

  generate-Tracks :
      (name : Bytes) (algorithm : KeyAlgorithm) (given : TpmAuthorization) (s : t.State)
      → Tracks t live 2 nothing (live s) (generate t parent parent_name name algorithm given s)
  unfolding generate from_tss
  generate-Tracks name algorithm given s =
      let kept = laws.capability_keeps (ecc_curve algorithm) s in
      let s₁ = (t.get_capability (ecc_curve algorithm) s).1 in
      then_do-keeps t live (live s) (from_tss t (t.get_capability (ecc_curve algorithm) s)) _ kept
        λ capabilities _. then_do-keeps t live (live s) _ _ kept λ _ _.
          then_do-keeps t live (live s) _ _ kept λ (auth, use_policy) _.
            let created = create-Tracks (create_public algorithm use_policy) auth s₁ in
            subst (λ l. Tracks t live 2 nothing l (creation auth use_policy s₁)) kept
              (then_do-Tracks t live 2 nothing nothing (live s₁) _ _ created λ made _ kept'.
                subst
                  (λ l. Tracks t live 2 nothing l (
                    finish_key t parent parent_name name algorithm use_policy made
                      (creating auth use_policy s₁).1))
                  kept' (finish_key-Tracks name algorithm use_policy made _))
    where
      creating : Bytes → KeyUsePolicy → t.State → Result TpmError (Bytes × Public) × t.State
      creating auth use_policy s₁ = from_tss t (
          with_encrypted_session t parent none
            (λ session. t.create session parent (create_public algorithm use_policy) auth) s₁)

      creation : Bytes → KeyUsePolicy → t.State → Result TpmError (KeySummary × TpmObject) × t.State
      creation auth use_policy s₁ =
          then_do (creating auth use_policy s₁)
            (λ made s₂. finish_key t parent parent_name name algorithm use_policy made s₂)

  -- Where the library counts its handles as documented, and whichever of its calls fail: `sign` and
  -- `generate` leave the handles of the TPM as they were where they succeed; where they fail, no
  -- handle of before is gone and at most two more are open.
  pub sign-generate-keep :
      (object : TpmObject) (name : Bytes) (algorithm : KeyAlgorithm) (digest : Bytes)
      (given : TpmAuthorization) (s : t.State)
      → IsReleased t live (live s) (sign t parent parent_name object algorithm digest given s)
        × IsReleased t live (live s) (generate t parent parent_name name algorithm given s)
  sign-generate-keep object name algorithm digest given s = (
    IsReleased-Tracks t live (live s) _ (sign-Tracks object algorithm digest given s),
    IsReleased-Tracks t live (live s) _ (generate-Tracks name algorithm given s),
  )

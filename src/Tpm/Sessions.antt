-- ===== src/Tpm/Sessions.antt =====
-- The handles that the adapter holds in the TPM: sessions and loaded keys.
use keyvisor.Tpm.Handles.{
  held, Leaks, Brings, brought, nothing, after_flush, Leaks-more, remove, remove-held, Leaks-cons,
  Leaks-held,
}
use keyvisor.Tpm.Template.{Public, HashingAlgorithm, EccCurve}
use keyvisor.Tpm.Esapi.{
  from_tss, run_in_session, both, in_session, with_encrypted_session, session_of,
}
use keyvisor.Wire.Endian.{Bytes}
use keyvisor.Tpm.Tss.{Tss, TssError}
use keyvisor.Prelude.{
  ℕ, suc, ◌≡◌, refl, sym, ap, ◌∙◌, subst, Option, none, some, List, [], ◌∷◌, arith, Result, ok, err,
  ok-injective, then_do, then_do-post,
}

-- What the library documents of the handles of its context. `start_auth_session` and `load` open a
-- handle where they return one; `flush_context` releases its handle where it succeeds, and leaves the
-- handles where it fails; the other calls leave the handles, whether they fail or not.
pub record IsAccounted (t : Tss) (live : t.State → List ℕ) : Type 0 where
  pub start_opens :
      (parent : ℕ) (bind : Option ℕ) (s : t.State)
      → live (t.start_auth_session parent bind s).1
        ≡ held (brought (λ h. h) (t.start_auth_session parent bind s).0) (live s)
  pub load_opens :
      (session parent : ℕ) (private : Bytes) (public : Public) (s : t.State)
      → live (t.load session parent private public s).1
        ≡ held (brought some (t.load session parent private public s).0) (live s)
  pub attributes_keep :
      (session : ℕ) (s : t.State) → live (t.tr_sess_set_attributes session s).1 ≡ live s
  pub flush_releases :
      (h : ℕ) (s : t.State)
      → live (t.flush_context h s).1 ≡ after_flush h (t.flush_context h s).0 (live s)
  pub auth_keeps : (h : ℕ) (auth : Bytes) (s : t.State) → live (t.tr_set_auth h auth s).1 ≡ live s
  pub name_keeps : (h : ℕ) (s : t.State) → live (t.tr_get_name h s).1 ≡ live s
  pub create_keeps :
      (session parent : ℕ) (public : Public) (auth : Bytes) (s : t.State)
      → live (t.create session parent public auth s).1 ≡ live s
  pub sign_keeps :
      (session h : ℕ) (digest : Bytes) (hash : HashingAlgorithm) (s : t.State)
      → live (t.sign session h digest hash s).1 ≡ live s
  pub capability_keeps :
      (curve : EccCurve) (s : t.State) → live (t.get_capability curve s).1 ≡ live s

module _ (t : Tss) (live : t.State → List ℕ) where
  -- The handles after an operation: where it succeeds, those before it and the one that its result
  -- brings; where it fails, at most so many more than before.
  abbrev pub Tracks : {E A : Type 0} → ℕ → (A → Option ℕ) → List ℕ → Result E A × t.State → Type 0
  Tracks n handle_of handles (ok a, s) = live s ≡ held (handle_of a) handles
  Tracks n handle_of handles (err e, s) = Leaks n handles (live s)

  pub Tracks-ok :
      {E A : Type 0} (n : ℕ) (handle_of : A → Option ℕ) (handles : List ℕ)
      (m : Result E A × t.State) {a : A}
      → Tracks n handle_of handles m
      → m.0 ≡ ok a
      → live m.1 ≡ held (handle_of a) handles
  Tracks-ok n handle_of handles (ok x, s) h e =
      h ∙ ap (λ y. held (handle_of y) handles) (ok-injective e)
  Tracks-ok n handle_of handles (err x, s) h e = cc

  pub Tracks-err :
      {E A : Type 0} (n : ℕ) (handle_of : A → Option ℕ) (handles : List ℕ)
      (m : Result E A × t.State) {e : E}
      → Tracks n handle_of handles m
      → m.0 ≡ err e
      → Leaks n handles (live m.1)
  Tracks-err n handle_of handles (ok x, s) h e = cc
  Tracks-err n handle_of handles (err x, s) h e = h

  pub Tracks-keeps :
      {E A : Type 0} (n : ℕ) (handles : List ℕ) (m : Result E A × t.State)
      → live m.1 ≡ handles
      → Tracks n nothing handles m
  Tracks-keeps n handles (ok a, s) h = h
  Tracks-keeps n handles (err e, s) h = ([], h, omega arith)

  pub Tracks-more :
      {E A : Type 0} (handles : List ℕ) (m : Result E A × t.State)
      → Tracks 1 nothing handles m
      → Tracks 2 nothing handles m
  Tracks-more handles (ok a, s) h = h
  Tracks-more handles (err e, s) h = Leaks-more (omega arith) h

  -- An operation and the rest after it.
  pub then_do-Tracks :
      {E A B : Type 0} (n : ℕ) (handle_of : A → Option ℕ) (handle_of' : B → Option ℕ)
      (handles : List ℕ) (m : Result E A × t.State) (k : A → t.State → Result E B × t.State)
      → Tracks n handle_of handles m
      → ((a : A)
          → m.0 ≡ ok a
          → live m.1 ≡ held (handle_of a) handles
          → Tracks n handle_of' handles (k a m.1))
      → Tracks n handle_of' handles (then_do m k)
  unfolding then_do
  then_do-Tracks n handle_of handle_of' handles (ok a, s) k tracked rest = rest a refl tracked
  then_do-Tracks n handle_of handle_of' handles (err e, s) k tracked rest = tracked

module _ (t : Tss) (live : t.State → List ℕ) (laws : IsAccounted t live) where
  pub from_tss-Tracks :
      {A : Type 0} (n : ℕ) (handle_of : A → Option ℕ) (handles : List ℕ)
      (m : Result TssError A × t.State)
      → Tracks t live n handle_of handles m
      → Tracks t live n handle_of handles (from_tss t m)
  unfolding from_tss
  from_tss-Tracks n handle_of handles (ok a, s) h = h
  from_tss-Tracks n handle_of handles (err e, s) h = h

  -- An operation and the release of the session around it.
  run_in_session-Tracks :
      {A : Type 0} (n : ℕ) (handle_of : A → Option ℕ) (session : ℕ) (handles : List ℕ)
      (m : Result TssError A × t.State)
      → Brings handle_of n
      → live m.1 ≡ held (brought handle_of m.0) (session ∷ handles)
      → Tracks t live (suc n) handle_of handles (run_in_session t session m)
  unfolding run_in_session both
  run_in_session-Tracks {A = A} n handle_of session handles (r, s) few h =
      released r h (t.flush_context session s).0 (laws.flush_releases session s)
    where
      released :
          (r : Result TssError A)
          → live s ≡ held (brought handle_of r) (session ∷ handles)
          → (f : Result TssError (Unit {0}))
          → live (t.flush_context session s).1 ≡ after_flush session f (live s)
          → Tracks t live (suc n) handle_of handles (both r f, (t.flush_context session s).1)
      released (ok a) h (ok u) e =
          e ∙ ap (remove session) h ∙ remove-held session (handle_of a) handles
      released (ok a) h (err x) e =
          subst (λ l. Leaks (suc n) handles l) (sym (e ∙ h))
            (Leaks-cons (Leaks-held (handle_of a) n (session ∷ handles) (few a)))
      released (err x) h (ok u) e =
          ([], e ∙ ap (remove session) h ∙ remove-held session none handles, omega arith)
      released (err x) h (err y) e = (session ∷ [], e ∙ h, omega arith)

  in_session-Tracks :
      {A : Type 0} (n : ℕ) (handle_of : A → Option ℕ)
      (operation : ℕ → t.State → Result TssError A × t.State) (handles : List ℕ)
      (started : Option ℕ) (s : t.State)
      → Brings handle_of n
      → ((session : ℕ) (s' : t.State)
          → live (operation session s').1
            ≡ held (brought handle_of (operation session s').0) (live s'))
      → live s ≡ held started handles
      → Tracks t live (suc n) handle_of handles (in_session t operation started s)
  unfolding in_session session_of then_do
  in_session-Tracks n handle_of operation handles none s few h opened = ([], opened, omega arith)
  in_session-Tracks n handle_of operation handles (some session) s few h opened =
      let kept = laws.attributes_keep session s ∙ opened in
      then_do-post (Tracks t live (suc n) handle_of handles) (t.tr_sess_set_attributes session s) _
        (λ e failed. (session ∷ [], kept, omega arith))
        (λ _ _.
          let s' = (t.tr_sess_set_attributes session s).1 in
          run_in_session-Tracks n handle_of session handles (operation session s') few
            (h session s' ∙ ap (held (brought handle_of (operation session s').0)) kept))

  -- Where the operation in a session succeeds and its session is released, the handles are those
  -- before and the one of the result; the session and that one can be left otherwise.
  pub with_encrypted_session-Tracks :
      {A : Type 0} (n : ℕ) (handle_of : A → Option ℕ) (parent : ℕ) (bind : Option ℕ)
      (operation : ℕ → t.State → Result TssError A × t.State) (s : t.State)
      → Brings handle_of n
      → ((session : ℕ) (s' : t.State)
          → live (operation session s').1
            ≡ held (brought handle_of (operation session s').0) (live s'))
      → Tracks t live (suc n) handle_of (live s) (with_encrypted_session t parent bind operation s)
  unfolding with_encrypted_session
  with_encrypted_session-Tracks n handle_of parent bind operation s few h =
      let opened = laws.start_opens parent bind s in
      then_do-post (Tracks t live (suc n) handle_of (live s)) (t.start_auth_session parent bind s) _
        (λ e failed. ([], opened ∙ rw (failed) refl, omega arith))
        λ started same.
          in_session-Tracks n handle_of operation (live s) started _ few h (opened ∙ rw (same) refl)

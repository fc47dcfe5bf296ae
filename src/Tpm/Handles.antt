-- ===== src/Tpm/Handles.antt =====
-- Lists of handles.
use keyvisor.Tpm.Tss.{TssError}
use keyvisor.Prelude.{
  ℕ, suc, ◌≤◌, ◌≡◌, refl, sym, ap, ◌∙◌, subst, inl, inr, Option, none, some, List, [], ◌∷◌, ◌++◌,
  append_assoc, arith, ◌==◌, if◌then◌else◌, ==_iff, Bool-cases, length, length-append, Result, ok,
  err,
}

-- The handles after a call that returned a new one, or none.
abbrev pub held : Option ℕ → List ℕ → List ℕ
held none handles = handles
held (some h) handles = h ∷ handles

abbrev pub remove : ℕ → List ℕ → List ℕ
remove h [] = []
remove h (x ∷ handles) = if x == h then handles else x ∷ remove h handles

-- The handles after `flush_context`.
abbrev pub after_flush : ℕ → Result TssError (Unit {0}) → List ℕ → List ℕ
after_flush h (ok u) handles = remove h handles
after_flush h (err e) handles = handles

-- The handle that a result brings.
abbrev pub brought {ℓ} : {E : Type 0} {A : Type ℓ} → (A → Option ℕ) → Result E A → Option ℕ
brought handle_of (ok a) = handle_of a
brought handle_of (err e) = none

abbrev pub nothing {ℓ} : {A : Type ℓ} → A → Option ℕ
nothing a = none

pub held-nothing :
    {E A : Type 0} (r : Result E A) (handles : List ℕ) → held (brought nothing r) handles ≡ handles
held-nothing (ok a) handles = refl
held-nothing (err e) handles = refl

pub remove-held :
    (h : ℕ) (before : Option ℕ) (handles : List ℕ)
    → remove h (held before (h ∷ handles)) ≡ held before handles
remove-held h none handles = ground (arith, ==_iff h h)
remove-held h (some x) handles = ground (arith, ==_iff h h, ==_iff x h)

-- The handles of before, and at most so many more.
abbrev pub Leaks : ℕ → List ℕ → List ℕ → Type 0
Leaks n handles after = (more : List ℕ) × (after ≡ more ++ handles) × (length more ≤ n)

-- How many handles a result of an operation can bring.
abbrev pub Brings {ℓ} : {A : Type ℓ} → (A → Option ℕ) → ℕ → Type ℓ
Brings {A = A} handle_of n = (a : A) → length (held (handle_of a) []) ≤ n

pub Leaks-held :
    (o : Option ℕ) (n : ℕ) (handles : List ℕ)
    → length (held o []) ≤ n
    → Leaks n handles (held o handles)
Leaks-held none n handles h = ([], refl, h)
Leaks-held (some x) n handles h = (x ∷ [], refl, h)

pub Leaks-more :
    {n m : ℕ} {handles after : List ℕ} → n ≤ m → Leaks n handles after → Leaks m handles after
Leaks-more h (more, e, small) = (more, e, omega arith)

-- One of the handles of before was new.
pub Leaks-cons :
    {n : ℕ} {h : ℕ} {handles after : List ℕ}
    → Leaks n (h ∷ handles) after
    → Leaks (suc n) handles after
Leaks-cons {h = h} {handles} (more, e, small) = (
  more ++ h ∷ [],
  e ∙ sym (append_assoc more (h ∷ []) handles),
  omega (arith, length-append more (h ∷ [])),
)

Leaks-remove_all :
    (h : ℕ) (more handles : List ℕ) → Leaks (length more) handles (remove h (more ++ h ∷ handles))
Leaks-remove_all h [] handles = ([], ground (arith, ==_iff h h), omega arith)
Leaks-remove_all h (x ∷ more) handles = elim (Bool-cases (x == h)) [
  | inl e ↦ rw e (
    more ++ h ∷ [],
    sym (append_assoc more (h ∷ []) handles),
    omega (arith, length-append more (h ∷ [])),
  )
  | inr e ↦
      let (more', e', small) = Leaks-remove_all h more handles in
      rw e (x ∷ more', ap (λ l. x ∷ l) e', omega arith)
]

-- The release of the handle that is new.
pub Leaks-remove :
    (h : ℕ) {n : ℕ} {handles after : List ℕ}
    → Leaks n (h ∷ handles) after
    → Leaks n handles (remove h after)
Leaks-remove h {n} {handles} (more, e, small) =
    subst (λ a. Leaks n handles (remove h a)) (sym e)
      (Leaks-more small (Leaks-remove_all h more handles))

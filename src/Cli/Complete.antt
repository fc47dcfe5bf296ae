-- ===== src/Cli/Complete.antt =====
-- What `check_options` asks for.
use keyvisor.Cli.Control.{ok_or}
use keyvisor.Cli.Defs.{name_required, name_length, authorization_required, CliError}
use keyvisor.Wire.Endian.{Bytes}
use keyvisor.Cli.Create.{check_options}
use keyvisor.Prelude.{
  ◌*◌, ◌≤◌, ◌<◌, ◌≡◌, ap, subst, false, ◌||◌, Option, none, some, [], ◌∷◌, arith, ltb, length,
  is_empty, ok, fail_if, bind-eq-ok, ok-injective, fail_if-eq-ok,
}
use keyvisor.Cli.Arguments.{CreateOptions}
use keyvisor.Core.{KeyUsePolicy}

-- The name and the policy that were given.
abbrev pub IsComplete : CreateOptions → Bytes → KeyUsePolicy → Type 0
IsComplete options name policy =
    (options.name ≡ some name)
    × (0 < length name)
    × (length name ≤ 4096)
    × (options.policy ≡ some policy)

ok_or-eq-ok : {A : Type 0} (e : CliError) (o : Option A) {a : A} → ok_or e o ≡ ok a → o ≡ some a
unfolding ok_or
ok_or-eq-ok e none h = cc
ok_or-eq-ok e (some a) h = ap some (ok-injective h)

name-bounds :
    (name : Bytes)
    → (is_empty name || ltb (4 * 1024) (length name)) ≡ false
    → (0 < length name) × (length name ≤ 4096)
name-bounds [] h = cc
name-bounds (b ∷ bs) h = (omega arith, ground arith)

pub check_options-IsComplete :
    (options : CreateOptions) {name : Bytes} {policy : KeyUsePolicy}
    → check_options options ≡ ok (name, policy)
    → IsComplete options name policy
unfolding check_options
check_options-IsComplete options h =
    let (n, named, h₁) = bind-eq-ok (ok_or name_required options.name) _ h in
    let (u, sized, h₂) =
      bind-eq-ok (fail_if (is_empty n || ltb (4 * 1024) (length n)) name_length) _ h₁ in
    let (p, chosen, h₃) = bind-eq-ok (ok_or authorization_required options.policy) _ h₂ in
    let e = ok-injective h₃ in
    let (positive, fits) = name-bounds n (fail_if-eq-ok _ name_length sized) in
    subst (λ q. IsComplete options q.0 q.1) e
      (
        ok_or-eq-ok name_required options.name named,
        positive,
        fits,
        ok_or-eq-ok authorization_required options.policy chosen,
      )

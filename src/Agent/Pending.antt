-- ===== src/Agent/Pending.antt =====
-- `HashMap<String, PendingAuthorization>`: the requests that wait for a PIN, by identifier.
use keyvisor.Wire.Endian.{Bytes}
use keyvisor.Prelude.{
  ◌≡◌, subst, ◌↔◌, Bool, true, Option, none, some, List, [], ◌∷◌, arith, if◌then◌else◌, bytes_eq,
  bytes_eq_sound, bytes_eq_refl,
}

-- The sender of a request's channel, which has room for the one value that is ever sent:
-- `listening` says whether the receiver still exists.
pub record PendingAuthorization : Type 0 where
  pub key_name : Bytes
  pub listening : Bool

abbrev pub Requests : Type 0
Requests = List (Bytes × PendingAuthorization)

unfoldable pub find : Bytes → Requests → Option PendingAuthorization
find id [] = none
find id ((key, request) ∷ requests) = if bytes_eq key id then some request else find id requests

unfoldable pub remove : Bytes → Requests → Requests
remove id [] = []
remove id ((key, request) ∷ requests) =
    let rest = remove id requests in if bytes_eq key id then rest else (key, request) ∷ rest

unfoldable pub insert : Bytes → PendingAuthorization → Requests → Requests
insert id request requests = (id, request) ∷ remove id requests

pub bytes_eq_iff : (a b : Bytes) → (bytes_eq a b ≡ true) ↔ (a ≡ b)
bytes_eq_iff a b = (bytes_eq_sound a b, λ e. subst (λ c. bytes_eq a c ≡ true) e (bytes_eq_refl a))

pub find-remove :
    (id key : Bytes) (requests : Requests)
    → find key (remove id requests) ≡ (if bytes_eq id key then none else find key requests)
unfolding find remove
find-remove id key [] = ground arith
find-remove id key ((k, request) ∷ requests) =
    ground (
      arith,
      find-remove id key requests,
      bytes_eq_iff id key,
      bytes_eq_iff k key,
      bytes_eq_iff k id,
    )

pub find-insert :
    (id key : Bytes) (request : PendingAuthorization) (requests : Requests)
    → find key (insert id request requests)
      ≡ (if bytes_eq id key then some request else find key requests)
unfolding insert find
find-insert id key request requests = ground (arith, find-remove id key requests)

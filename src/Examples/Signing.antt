-- ===== src/Examples/Signing.antt =====
-- A signing request at concrete inputs.
use keyvisor.Protocol.Signatures.{sign_response, ecdsa_signature_response_lem}
use keyvisor.Wire.Utf8.{codes}
use keyvisor.Wire.Endian.{Bytes}
use keyvisor.Prelude.{ℕ, ◌≡◌, refl, true, false, List, [], ◌∷◌, ◌++◌, arith, replicate, ok}
use keyvisor.Core.{ecdsa_nist_p256, ecdsa_component_size}
use keyvisor.Store.Defs.{StoredKey}
use keyvisor.Store.Listing
use keyvisor.Protocol.Defs.{sign, parse_request, ecdsa_signature_response}
use keyvisor.Agent.Handle.{Services, Runtime, handle, find_key}
use keyvisor.Agent.Signing.{IsSigned, handle-IsSigned, IsFirst}
use keyvisor.Examples.Stores.{store, filled_files, key_listed}

abbrev ones : Bytes
ones = replicate 32 1

abbrev services : Services
services = record {
  sha256 = λ signed. replicate 32 0;
  sha384 = λ signed. replicate 48 0;
  connects = true;
  tpm_sign = λ key' digest' authorization'. ok (ones ++ ones);
  request_pin = λ name. ok (codes "123456");
  gone_at_start = false;
  gone_before_signing = false;
  gone_after_signing = false;
  now_seconds = 1700000000;
  process = 7;
}

abbrev runtime : Runtime
runtime = record {
  store = store;
  history = codes "data" ∷ codes "history.bin" ∷ [];
  history_enabled = true;
  tpm_open = false;
  files = filled_files;
}

abbrev packet : Bytes
packet = 13 ∷ 0 ∷ 0 ∷ 0 ∷ 2 ∷ 1 ∷ 2 ∷ 0 ∷ 0 ∷ 0 ∷ 1 ∷ 9 ∷ 0 ∷ 0 ∷ 0 ∷ 0 ∷ []

packet-parsed : parse_request packet ≡ ok (sign (1 ∷ 2 ∷ []) (9 ∷ []) 0)
unfolding parse_request keyvisor.Protocol.Defs.take_string keyvisor.Protocol.Defs.take_bytes
    keyvisor.Protocol.Defs.take_u32 keyvisor.Protocol.Defs.ensure_empty
    keyvisor.Protocol.Defs.parse_sign keyvisor.Protocol.Defs.parse_message
    keyvisor.Wire.Cursor.split_at keyvisor.Wire.Cursor.read_be keyvisor.Wire.Endian.from_be_bytes
packet-parsed = refl

signature_sent :
    ecdsa_signature_response ecdsa_nist_p256 (ones ++ ones)
    ≡ ok (sign_response ecdsa_nist_p256 ones ones)
signature_sent =
    (ecdsa_signature_response_lem ecdsa_nist_p256 ones ones (omega arith) (omega arith)
      (unfold ecdsa_component_size in refl) (unfold ecdsa_component_size in refl)).0

packet-answered : (handle services packet runtime).0 ≡ ok (sign_response ecdsa_nist_p256 ones ones)
unfolding handle keyvisor.Agent.Handle.handle_request keyvisor.Agent.Handle.sign_listed
    keyvisor.Agent.Handle.sign_found keyvisor.Agent.Handle.sign_with_key
    keyvisor.Agent.Handle.with_pin keyvisor.Agent.Handle.obtain_pin
    keyvisor.Agent.Handle.sign_with_tpm keyvisor.Agent.Handle.make_signature find_key
packet-answered = rw (packet-parsed, key_listed, signature_sent)

handle-IsSigned_example :
    (◌≡◌ {A = ℕ} 0 0)
    × (services.gone_at_start ≡ false)
    × ((keys : List StoredKey) × ((Listing.list runtime.store runtime.files).0 ≡ ok keys)
        × ((key' : StoredKey) × IsFirst services (1 ∷ 2 ∷ []) keys key'
            × IsSigned services key' (9 ∷ []) (sign_response ecdsa_nist_p256 ones ones)))
handle-IsSigned_example =
    handle-IsSigned services packet (1 ∷ 2 ∷ []) (9 ∷ []) (sign_response ecdsa_nist_p256 ones ones)
      0 runtime packet-parsed packet-answered

-- ===== src/Examples/CommandLine.antt =====
-- The command line at concrete inputs.
use keyvisor.Wire.Utf8.{codes, ascii-IsText}
use keyvisor.Wire.Endian.{Bytes}
use keyvisor.Prelude.{◌≡◌, true, [], ◌∷◌, arith, ok}
use keyvisor.Cli.Control.{fetch_authorization_requests}
use keyvisor.Cli.Pending.{fetch_authorization_requests-list_pending, names, ArePlain}
use keyvisor.Agent.Control.{list_pending}
use keyvisor.Agent.Pending.{PendingAuthorization}

abbrev secret : Bytes
secret = codes "123456"

abbrev request : PendingAuthorization
request = record { key_name = codes "laptop"; listening = true }

requests-ArePlain : ArePlain ((codes "1a-1", request) ∷ [])
requests-ArePlain = (
  record {
    text = ascii-IsText (codes "1a-1") (omega arith);
    one_line = omega arith;
    one_field = omega arith;
    short = omega arith;
    bytes = omega arith;
    name_text = ascii-IsText (codes "laptop") (omega arith);
    name_short = omega arith;
  },
  tt,
)

fetch_authorization_requests-list_pending_example :
    fetch_authorization_requests (list_pending ((codes "1a-1", request) ∷ []))
    ≡ ok (names ((codes "1a-1", request) ∷ []))
fetch_authorization_requests-list_pending_example =
    fetch_authorization_requests-list_pending ((codes "1a-1", request) ∷ []) requests-ArePlain
      (omega arith)

-- ===== src/Cli/Tables.antt =====
-- What `key list`, `key show` and `history` print.
use keyvisor.Wire.Decimal.{to_string}
use keyvisor.Wire.Utf8.{codes}
use keyvisor.Store.Defs.{StoredKey}
use keyvisor.Cli.Tsv.{escape_tsv}
use keyvisor.Wire.Endian.{Bytes}
use keyvisor.Prelude.{ℕ, List, [], ◌∷◌, ◌++◌, map}
use keyvisor.History.Defs.{succeeded, failed, HistoryOutcome, HistoryEntry}
use keyvisor.Cli.Arguments.{human, tsv, OutputFormat}
use keyvisor.Core.{no_pin, tpm_pin, KeyUsePolicy, ssh_key_type, as_str}

abbrev pub tab : ℕ
tab = 9

unfoldable pub policy_name : KeyUsePolicy → Bytes
policy_name no_pin = codes "none"
policy_name tpm_pin = codes "pin"

unfoldable pub outcome_name : HistoryOutcome → Bytes
outcome_name succeeded = codes "succeeded"
outcome_name failed = codes "failed"

-- Fields with a text between them.
unfoldable pub join : Bytes → List Bytes → Bytes
join between [] = []
join between (field ∷ []) = field
join between (field ∷ next ∷ fields) = field ++ (between ++ join between (next ∷ fields))

-- SHA-256 and base64 without and with padding.
pub record Encoders : Type 0 where
  pub sha256 : Bytes → Bytes
  pub no_pad : Bytes → Bytes
  pub padded : Bytes → Bytes

module _ (encoders : Encoders) where
  unfoldable pub fingerprint : Bytes → Bytes
  fingerprint public_key = codes "SHA256:" ++ encoders.no_pad (encoders.sha256 public_key)

  unfoldable pub key_fields : StoredKey → List Bytes
  unfolding policy_name fingerprint escape_tsv
  key_fields key =
      as_str key.summary.id
      ∷ escape_tsv key.summary.name
      ∷ policy_name key.summary.use_policy
      ∷ fingerprint key.summary.public_key
      ∷ []

  unfoldable pub key_human : StoredKey → Bytes
  unfolding policy_name fingerprint join
  key_human key = join (codes "  ") (
      as_str key.summary.id
      ∷ key.summary.name
      ∷ policy_name key.summary.use_policy
      ∷ fingerprint key.summary.public_key
      ∷ [])

  unfoldable pub key_lines : OutputFormat → List StoredKey → List Bytes
  unfolding key_fields key_human join
  key_lines tsv keys =
      codes "KEYVISOR-KEYS-1"
      ∷ join (tab ∷ [])
          (codes "id" ∷ codes "name" ∷ codes "authorization" ∷ codes "fingerprint" ∷ [])
      ∷ map (λ key. join (tab ∷ []) (key_fields key)) keys
  key_lines human [] = codes "No keys." ∷ []
  key_lines human (key ∷ keys) = map key_human (key ∷ keys)

  unfoldable pub show_lines : StoredKey → List Bytes
  unfolding policy_name fingerprint join ssh_key_type
  show_lines key =
      (codes "ID: " ++ as_str key.summary.id)
      ∷ (codes "Name: " ++ key.summary.name)
      ∷ (codes "Algorithm: " ++ ssh_key_type key.summary.algorithm)
      ∷ (codes "Authorization: " ++ policy_name key.summary.use_policy)
      ∷ (codes "Fingerprint: " ++ fingerprint key.summary.public_key)
      ∷ (codes "Public key: "
          ++ join (codes " ") (
              ssh_key_type key.summary.algorithm
              ∷ encoders.padded key.summary.public_key
              ∷ key.summary.name
              ∷ []))
      ∷ []

unfoldable pub entry_fields : HistoryEntry → List Bytes
unfolding policy_name outcome_name escape_tsv
entry_fields entry =
    to_string entry.timestamp_seconds
    ∷ as_str entry.key_id
    ∷ escape_tsv entry.key_name
    ∷ policy_name entry.use_policy
    ∷ outcome_name entry.outcome
    ∷ []

unfoldable pub entry_human : HistoryEntry → Bytes
unfolding policy_name outcome_name join
entry_human entry = join (codes "  ") (
    to_string entry.timestamp_seconds
    ∷ as_str entry.key_id
    ∷ entry.key_name
    ∷ policy_name entry.use_policy
    ∷ outcome_name entry.outcome
    ∷ [])

unfoldable pub entry_lines : OutputFormat → List HistoryEntry → List Bytes
unfolding entry_fields entry_human join
entry_lines tsv entries =
    codes "KEYVISOR-HISTORY-1"
    ∷ join (tab ∷ []) (
        codes "timestamp"
        ∷ codes "key-id"
        ∷ codes "key-name"
        ∷ codes "authorization"
        ∷ codes "outcome"
        ∷ [])
    ∷ map (λ entry. join (tab ∷ []) (entry_fields entry)) entries
entry_lines human [] = codes "No signing history." ∷ []
entry_lines human (entry ∷ entries) = map entry_human (entry ∷ entries)

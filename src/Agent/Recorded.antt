-- ===== src/Agent/Recorded.antt =====
-- What the history says of a request to sign.
use keyvisor.History.Ops.{append}
use keyvisor.Agent.Signing.{IsFirst}
use keyvisor.Files.Paths.{FilePath}
use keyvisor.Files.Defs.{Files, node_at}
use keyvisor.Store.Defs.{StoredKey, StoreError}
use keyvisor.Wire.Endian.{Bytes}
use keyvisor.Agent.Handle.{Services, Runtime}
use keyvisor.Agent.Defs.{AgentError}
use keyvisor.Prelude.{ℕ, ◌≡◌, ◌≢◌, ◌⊎◌, true, List, if◌then◌else◌, All, Result, ok, err}
use keyvisor.History.Defs.{HistoryEntry, HistoryOutcome, succeeded, failed}
use keyvisor.Store.Listing

-- What the client is told, and the outcome that is recorded of it.
abbrev pub IsTold : HistoryOutcome → Result AgentError Bytes → Type 0
IsTold succeeded r = (response : Bytes) × (r ≡ ok response)
IsTold failed r = (e : AgentError) × (r ≡ err e)

module _ (services : Services) where
  -- The entry of a key and an outcome at the time of the request.
  abbrev pub entry : StoredKey → HistoryOutcome → HistoryEntry
  entry key outcome = record {
    timestamp_seconds = services.now_seconds;
    key_id = key.summary.id;
    key_name = key.summary.name;
    use_policy = key.summary.use_policy;
    outcome = outcome;
  }

  -- The files after the outcome of a key was recorded, if the history is enabled.
  abbrev pub recorded_files : Runtime → StoredKey → HistoryOutcome → Files → Files
  recorded_files runtime key outcome files =
      if runtime.history_enabled
      then (append runtime.history services.process (entry key outcome) files).1
      else files

  -- A request that comes to no key: the client had hung up, the request has flags, the store is not
  -- listed, or has no key with the public key.
  abbrev pub ComesToNoKey : Bytes → ℕ → Runtime → Type 0
  ComesToNoKey public_key flags runtime =
      (services.gone_at_start ≡ true)
      ⊎ (flags ≢ 0)
      ⊎ ((e : StoreError) × ((Listing.list runtime.store runtime.files).0 ≡ err e))
      ⊎ ((keys : List StoredKey) × ((Listing.list runtime.store runtime.files).0 ≡ ok keys)
          × All (λ k. k.summary.public_key ≢ public_key) keys)

  -- Such a request is refused, and changes no file.
  abbrev pub IsUnrecorded : Bytes → ℕ → Runtime → Result AgentError Bytes × Runtime → Type 0
  IsUnrecorded public_key flags runtime after =
      ComesToNoKey public_key flags runtime
      × IsTold failed after.0
      × ((q : FilePath) → node_at q after.1.files ≡ node_at q runtime.files)

  -- The first key with the public key: the one entry says what the client is told.
  abbrev pub IsRecorded : Bytes → Runtime → Result AgentError Bytes × Runtime → Type 0
  IsRecorded public_key runtime after =
      (keys : List StoredKey) × ((Listing.list runtime.store runtime.files).0 ≡ ok keys)
      × ((key : StoredKey) × IsFirst services public_key keys key
          × ((outcome : HistoryOutcome) × IsTold outcome after.0
              × (after.1.files
                  ≡ recorded_files runtime key outcome
                      (Listing.list runtime.store runtime.files).1)))

  module _ (public_key signed : Bytes) (flags : ℕ) (runtime : Runtime) where
    listed_runtime : Runtime
    listed_runtime = record runtime { files = (Listing.list runtime.store runtime.files).1 }

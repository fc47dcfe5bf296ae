-- ===== src/Lib.antt =====
-- Keyvisor keeps SSH keys that a TPM wraps. The agent (crates/keyvisor-agent) answers the SSH agent
-- protocol on one socket and takes PINs on a second one, the control socket; it keeps the wrapped
-- keys, a signing history and the settings in files, and signs through the TPM adapter
-- (crates/keyvisor-tpm). The command line (crates/keyvisor-cli) creates, lists and deletes keys, and
-- answers requests for a PIN on the control socket. crates/keyvisor-core has the types that they share.
--
-- A client's packet comes from `serve_connection` (Agent.Serve) to `handle` (Agent.Handle), which
-- parses it (Protocol), lists the store (Store), obtains a PIN by `request_pin` (Agent.PinEntry),
-- signs with the TPM, encodes the answer (Protocol) and records the request (History). A PIN comes
-- from the command line (Cli.Secrets) by the control socket (Cli.Client, Agent.Control) to the
-- request. `key create` (Cli.Create) reads its arguments and a PIN, has the TPM make the key
-- (Tpm.Generate) and saves its record (Store.Ops).
--
-- The files and the code they are about:
--   Wire      what the crates use of the standard library on bytes and texts: big-endian numbers,
--             UTF-8, decimal and hexadecimal digits, lines, words, `read_until`
--   Core      crates/keyvisor-core/src/lib.rs
--   Protocol  crates/keyvisor-agent/src/protocol.rs; the definitions are in Protocol.Defs
--   Files     the file system, and what the store and the history share of it: `save`'s temporary
--             file and replacement (Files.Save, Files.Atomic), `ensure_private_directory`; the
--             environment of a process and paths from it (Files.Environment)
--   History   crates/keyvisor-agent/src/history.rs: the codec (History.Defs), `HistoryStore`
--             (History.Ops)
--   Config    crates/keyvisor-agent/src/config.rs: `Config::get` and `set`, `parse` and what `save`
--             prints (Config.Defs), `ConfigStore` (Config.Ops)
--   Store     crates/keyvisor-agent/src/lib.rs: the codec (Store.Defs), `KeyStore` (Store.Ops,
--             Store.Listing), `file_stem` (Store.Names)
--   Tpm       crates/keyvisor-tpm/src: the types (Tpm.Defs), `create_public` and `validate_public`
--             (Tpm.Template), the encodings of esapi.rs (Tpm.Codec), the calls of the TSS library
--             (Tpm.Tss), `with_encrypted_session`, `load` and `sign` (Tpm.Esapi), `generate`
--             (Tpm.Generate), `connect` (Tpm.Connect)
--   Agent     crates/keyvisor-agent/src/main.rs: `ConnectionLimiter` (Connections), `serve_connection`
--             (Serve), `AgentRuntime` (Handle, PinEntry, Pending, RequestIds), `RequestMonitor`
--             (Monitor), the control service (Control), sockets and their guards (Sockets), paths
--             (Locations)
--   Cli       crates/keyvisor-cli/src/main.rs: arguments (Arguments), the commands (Create, Commands,
--             Client, Exec, Main), where PINs are read (Console, Dialog, Secrets, over Pin and
--             Assuan), output (Tsv, Tables), the control socket's answers (Control), paths (Locations)
--   Examples  the theorems at concrete inputs
--
-- How the code is modelled. Bytes are numbers, and a text is its bytes, with UTF-8 decoding written
-- out. `&mut` slices and streams are the remaining bytes that come back beside a result. The file
-- system is a map from paths to nodes beside a list of faults: each operation takes the next one, so
-- that a theorem for all states is one for every pattern of failures; a failed write may have written
-- any prefix. What `sync_all` makes durable, and parents of a directory that is created, are not in
-- the model. Errors are constructors in place of messages. A HashMap is an association list, and its
-- iteration order the list's. The TPM library, SHA-2, and what a request meets in time (the PIN that
-- is entered, whether the client hangs up, the clock) are the fields of `Services`.
--
-- The TSS library is a record `Tss` of the calls that the adapter makes, on a state of its own, where
-- each call may fail; which handles it opens, releases and leaves is in `IsAccounted`, and what it
-- documents of encodings in `IsFaithful`, each with an instance in Examples. The terminal, the dialog and the standard input are a `Console` that
-- says what each use of them meets, the agent is for the command line a peer that answers what it is
-- sent, and sockets are nodes beside a list of failing calls. A path is the list of its components,
-- without the difference between absolute and relative ones. The digest and the base64 texts of the
-- fingerprints are the parameter `Encoders`.
--
-- Fuel. Each round of `serve_loop` reads at least four bytes and each of `response_loop` at least one,
-- so the length of the input is enough fuel for both.
-- The temporary file is tried 100 times, as in the source. The wait for a PIN runs over the rounds
-- that it sees, and ends at the first late one.
--
-- Not modelled: the loops of `main` that accept connections, threads, poisoned mutexes and signals,
-- the creation of the storage parent, failing writes to a socket, the `ERR` line that a failed
-- command's thread writes, the processes of the graphical dialog and of the command that `exec`
-- starts, with the ends that they are brought to, and the texts of help and of errors.
mod Prelude
pub mod Wire
pub mod Core
pub mod Files
pub mod History
pub mod Config
pub mod Tpm
pub mod Store
pub mod Protocol
pub mod Agent
pub mod Cli
pub mod Examples

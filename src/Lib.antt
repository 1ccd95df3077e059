-- ===== src/Lib.antt =====
-- Tari Vault: a store of encrypted proofs, which a sender stores and a receiver retrieves by a token.
--
-- The parts of the program, and the files that model them:
-- - src/error.rs: the errors, their codes and texts. Error.antt.
-- - src/domain: a token is a record id and a key in base64 (claim_id.rs, Domain/ClaimId.antt); a
--   record is a nonce, a ciphertext and two dates (record.rs, Domain/Record.antt and its JSON form in
--   Domain/Record/Document.antt); a proof is bytes that ought to be JSON (proof.rs,
--   Domain/Proof.antt).
-- - src/storage: the trait StorageBackend (backend.rs) is a record of four operations on a state, and
--   its contract a record of laws (Storage/Backend.antt). The file store (local_file.rs,
--   Storage/LocalFile.antt) works on a `Disk`: the bytes of the vault file, its mode and the outcomes
--   of the system calls to come. The SQLite store (sqlite.rs, Storage/Sqlite.antt) works on a
--   `Database`: the rows of its table, dates as texts; Storage/Sqlite/Opening.antt opens the database
--   file. AnyBackend dispatches between the two (mod.rs, Storage/AnyBackend.antt).
--   Storage/BTreeMap.antt is the sorted map that the file holds.
-- - src/vault/proof_vault.rs: StandardVault over any backend (Vault.antt), with store_proof,
--   retrieve_proof, cleanup and delete_proof. Vault/Spec.antt is what they promise. Vault/Race.antt
--   has retrieve_proof cut where it awaits the backend, for two callers that interleave, and
--   Vault/Tasks.antt has any number of calls of all four kinds, cut in the same way: a `System` is the
--   list of the calls under way, each with the point it has reached, and the state of the backend; a
--   step starts a call or gives one of them its turn. Vault/Tasks/Locked.antt is the same over a
--   backend whose operations take an exclusive lock, read and then go on;
--   Storage/LocalFile/Locking/Parts.antt cuts those of the file store so. Vault/Map.antt is the vault
--   as a machine on a map from ids to records, over which any backend is a representation.
--   Vault/Map/Turns.antt has the tasks over that machine.
--   Vault/Interface.antt is the trait ProofVault, with its instances for StandardVault and for an Arc.
-- - src/vault/cleanup.rs: the background sweep as a machine that reacts to signals, cut at the
--   select! and at the await of the sweep (Cleanup.antt).
-- - src/auth.rs: the bearer-token layer (Auth.antt).
-- - src/rpc: the JSON-RPC handlers over any ProofVault (server.rs and api.rs, Rpc.antt); the table of
--   methods with rpc.discover (discovery.rs, Rpc/Methods.antt); a request from the authorization layer
--   down to the storage (Rpc/Service.antt, Rpc/Clients.antt, Rpc/RoundTrip.antt); which address may be
--   served without TLS (Rpc/Serving.antt) and which sockets a start opens (Rpc/Listening.antt); the
--   TLS accept loop (Rpc/Proxy.antt). Rpc/Opening.antt cuts the handlers where they await the vault,
--   and Rpc/Concurrent.antt has any number of requests at once: an exchange is a call of a client and
--   where its handler stands, and the tasks of the exchanges are those of Vault/Tasks.antt.
--   Rpc/Asked.antt says which call of the vault a method's name and parameters make.
--   Rpc/Concurrent/Locked.antt is the same over Vault/Tasks/Locked.antt.
-- - src/config.rs and src/main.rs: the configuration, the flags and the start (Startup.antt), the
--   sources of the configuration (Startup/Loading.antt), and the end of main, cut where it awaits
--   (Startup/Shutdown.antt): the requests that the server has taken are counted, and `stopped` of the
--   server returns when none is under way, as jsonrpsee documents it.
-- - The Debug impls that redact secrets, in src/config.rs, src/domain/claim_id.rs and
--   src/domain/proof.rs: Redaction.antt.
--
-- A call is a function from a state to a result and a state (Base/Effects.antt): `ok`, `err` or
-- `panic`, and the state comes back in every case, since what was written before an error stays
-- written. Bytes and texts are lists of numbers below 256; instants are nanoseconds. Random draws and
-- readings of the clock are arguments. The calls that leave the program take their outcomes from a
-- list that the environment has chosen (Storage/Faults.antt).
--
-- Parameters, with the documented behaviour that is relied on: the base64 engines
-- (Domain/Base64.antt), chrono (Domain/Chrono.antt), serde_json (Domain/Proof.antt,
-- Storage/LocalFile.antt), the text of a UUID (Storage/LocalFile.antt), AES-256-GCM (Vault.antt), the
-- http and subtle crates (Auth.antt), jsonrpsee (Rpc/Jsonrpsee.antt), rustls and tokio
-- (Rpc/Listening.antt, Rpc/Proxy.antt) and the config crate (Startup/Loading.antt). The files under
-- Examples give concrete parameters that keep those laws and run the code on them.
--
-- Loops are structural. The one that runs on fuel prints a usize, and has as many steps as a usize can
-- have digits, 20.
--
-- Not modelled: a failure of waiting for Ctrl-C or of stopping the server, which ends main at once;
-- what tokio copies between the two streams of a TLS connection; logging and the zeroing of memory,
-- which have no effect on a result; the .env file, which is part of the environment by the time it is
-- read; what makes bytes of openrpc.json. The lock of the file store is modelled in
-- Vault/Tasks/Locked.antt and Rpc/Concurrent/Locked.antt, where the callers are the calls of the vault
-- and the requests of a server; Storage/LocalFile/Locking.antt and
-- Storage/LocalFile/Locking/Parts.antt cut the operations at the reading of the file. The lock of the
-- process and the one among processes are one lock there, and the outcomes of the calls that precede
-- the reading of the file are drawn with it. Elsewhere an operation on a store is one step, and
-- Vault/Race.antt and Vault/Tasks.antt interleave such steps. Storage/LocalFile/Creation.antt cuts the
-- opening of the file store, which takes no lock, around its write.
pub mod Base
pub mod Error
pub mod Domain
pub mod Storage
pub mod Vault
pub mod Cleanup
pub mod Auth
pub mod Rpc
pub mod Startup
pub mod Redaction
mod Examples

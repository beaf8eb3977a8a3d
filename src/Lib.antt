-- ===== src/Lib.antt =====
-- angou keeps secrets in a directory of signed and encrypted blobs. Each blob is one file; its name
-- is the keyed digest of the logical path that its envelope carries, so that a renamed file is
-- noticed. The identity that seals the blobs is itself kept under a recovery passphrase in a key
-- bundle. This library models the parts of the Go program that decide what is stored, what is
-- accepted back and what is refused.
--
-- Prelude        shared names; Go errors as `Result`; byte strings as lists of numbers, with the
--                functions of `strings`, `bytes` and `unicode/utf8` that the program calls
-- Container      internal/container/container.go: Marshal, Unmarshal and the header
-- Envelope       internal/envelope/envelope.go: New and the checks of Unmarshal
-- KeyBundle      internal/keybundle/keybundle.go and memory.go: Params.Validate, Seal, Bundle.Open
-- PgpCrypto      internal/pgpcrypto/pgpcrypto.go: ParsePrivate, Identity.Seal, Identity.Open
-- External       what comes from outside the program: OpenPGP, digests, ciphers, encoding/json,
--                Unicode normalisation, randomness. It is a record that the definitions take as a
--                parameter; Store.Lawful and PgpCrypto.RoundTrip name what the theorems ask of it.
-- World          the file system as the store uses it: files by directory and name, calls of which
--                a schedule says which fail and when the program is killed, draws of randomness;
--                and writeFileAtomic of internal/store/store.go
-- Store          internal/store: LogicalPath (path.go), BlobId (blobid.go), Types, Core and Ops
--                (store.go: metadata, index, Put, Get, Remove, Move, List and the setters),
--                Rekey (RekeyIdentity, PruneSupersededBundles, RewrapRecovery of rekey.go),
--                Scan (Reindex, and readAll, PruneOrphans and OldKeyOpensAnything of rekey.go) and
--                Bundles (bundles.go, Init and Open); the other children hold the proofs
-- Release        internal/release/release.go: CompareVersions, BinaryName, ParseBinaryName,
--                List, Prune and Find
-- Duration       internal/cli/duration.go: parseDuration, with 64-bit products that wrap around
-- Agent          internal/agent: the server as a machine that takes one event after another, the
--                client, and both together
-- Session        internal/core/session.go: the routes of opening a store, CheckVersionFloor
-- Scan           internal/core/scan.go: the rules by which a file looks like a secret, and Walk: the
--                walk of a directory tree, with the depth and the directories that are skipped
-- Store.History  the map from paths to envelopes that PutWithOrigin, Remove and Move are to keep, and
--                runs of these operations
-- Operations     internal/core/ops.go: the questions (Operations), RestoreToOrigin over the files
--                outside the store (Restore), EncryptFile and EncryptCandidates (Encrypt)
-- Passphrase     internal/passphrase/passphrase.go: Generate, which draws words without replacement
-- Tests          a small External that can be run, and every theorem with hypotheses at an input
--
-- A method of *Store that writes its fields is an action `Act` on a cell of a store and a world: it
-- returns a result and the cell that it leaves, also where it fails. A method that only reads is an
-- action `M` on the world. Numbers are natural numbers without a bound where the code only compares
-- and copies them. Every definition recurs on the structure of its input, and none takes fuel.
--
-- Not modelled: the texts of error messages, the clearing of buffers that are not read again, file
-- modes and modification times on disk, and what the manifest of components lists as left out. A
-- write of a temporary file is one call, which either happens or leaves no change but to temporary
-- files. What a failed write leaves of a file outside the store, progress callbacks and log lines
-- are left out too. Where the name of a temporary file is taken, the call fails instead of drawing
-- another name.
pub mod Prelude
pub mod Container
pub mod Store
pub mod World
pub mod Envelope
pub mod KeyBundle
pub mod External
pub mod PgpCrypto
pub mod Release
pub mod Duration
pub mod Agent
pub mod Session
pub mod Scan
pub mod Operations
pub mod Passphrase
pub mod Tests

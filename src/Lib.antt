-- ===== src/Lib.antt =====
-- A verification library of Software Hub, a catalogue that publishes software, its releases and
-- their files (Python: app/).
--
-- Parts and files:
--   Prelude     shared names, tests, tables of rows with numeric keys, texts as code points
--   Unicode     Python's Unicode tables as a parameter, and the string methods built on them
--   Errors      app/core/exceptions.py: ApplicationError and its subclasses; Result
--   Models      app/models: the enumerations, one record for each table
--   Policies    app/services/policies.py: transition tables, transitions, access rules
--   Audit       app/services/audit_service.py: audit rows and the sanitizing of their metadata
--   Normalization  app/services/normalization.py: names and optional texts; slugs
--               (Normalization/Slugs, Normalization/Joined)
--   Security    app/core/security.py: usernames, password policy, keyed identifiers
--   Database    app/database/session.py: the rows, and transactions over them
--   Releases    app/services/release_service.py and app/repositories/release_repository.py
--   Sessions    app/services/session_service.py and app/repositories/session_repository.py
--               (Sessions/Touch, Sessions/Created, Sessions/Lifetime, Sessions/Revocation)
--   Auth        app/services/auth_service.py: accounts, login, lockout, change of password
--   Signatures  app/storage/signatures.py: file types by magic bytes
--   Pagination  app/schemas/pagination.py: page requests and results
--   Io          methods over an outside state, which return or raise; rules on how they end (Io/Rules)
--   Storage     app/storage: the operating system as a parameter (Storage), paths (Storage/Paths,
--               Storage/Texts), move.py (Storage/Move), lifecycle.py (Storage/Lifecycle), hashing.py
--               (Storage/Hashing); the laws of the calls (Storage/Lawful), a disk that has them
--               (Storage/Memory), what the routines do to the files (Storage/Moves,
--               Storage/Located, Storage/Faults) and tell of them (Storage/Alone)
--   Files       app/services/file_service.py: the rows (Files, Files/Graphs), the methods
--               (Files/Service), and what they leave behind (Files/Publish, Files/Restore,
--               Files/Delete over Files/Effects, Files/Compensation, Files/Staging,
--               Files/Verified, Files/DeletedRows)
--   Downloads   app/repositories/download_stat_repository.py: daily counters of downloads (Downloads,
--               Downloads/Totals); app/services/download_service.py: the authorization of a download
--               (Downloads/Service, Downloads/Grants) and its headers (Downloads/Headers)
--   Upload      app/storage/upload.py: the bounded copy of an upload (Upload), what is copied
--               (Upload/Copied, Upload/Stream, Upload/Liveness)
--   Samples     concrete rows for the modules called Tests
--
-- How the code is read. A table is the list of its rows; a query is a search of the list, an
-- UPDATE replaces the row with its key, a bulk UPDATE maps over the rows. A block under
-- `database.transaction()` is a function from the rows to a Result with the new rows; an error
-- carries no rows, as the transaction rolls back. A method that never raises returns the new rows
-- beside its result. The clock's value, the ids that the database draws and what `secrets` draws
-- are arguments. Times are seconds. SHA-256, HMAC, Argon2id (record Crypto in Security) and the
-- Unicode tables (record Unicode) are parameters of the definitions.
--
-- The calls of os and pathlib are the fields of Os in Storage, over any state S of the outside; a
-- call may fail at any time. IsLawful says what is relied on: only replace and unlink touch a
-- regular file, and only where they succeed. IsPlain says that the storage has no symbolic links,
-- so that Path.resolve gives the path itself; IsTruthful says that lstat, where it succeeds, tells
-- of the file at the path whether it is a regular one, and its size. It is taken that nothing else writes to the private
-- storage while a method runs. A method of the file service acts on a World, the rows and the
-- disk; its Meanwhile says what other transactions have committed between its first read and its
-- own transaction, and whether the database carries that transaction out. A read of the rows does
-- not fail. Files with no parent row do not occur, by the foreign keys.
--
-- Interplay: the services of Releases, Sessions and Auth call Policies, Security and
-- Normalization, append rows through Audit, and share the one Database. Auth calls Sessions to
-- create and to revoke. The file service calls Policies, Signatures, Audit and Storage; the
-- authorization of a download calls Policies, Storage and the counters.
--
-- The loop of sha256_stream runs on fuel: a round takes a byte at least, so that the length of
-- the stream is enough. The loop of copy_stream stops beyond max_size bytes, so that max_size + 1
-- rounds are enough whatever the stream holds, and write_all takes a byte at least in a round. No
-- other loop has fuel; `decimal` in Normalization writes numbers below 10^10 with fuel 10, and the
-- limits it is called with are smaller.
--
-- Not modelled: the web framework, templates, the command line, logging, the SQL of read-only
-- listings, the rest of the upload pipeline, and the software, backup and reconciliation
-- services. The secrets of the configuration are taken to be set: without them the session
-- service raises a RuntimeError.
pub mod Prelude
pub mod Unicode
pub mod Errors
pub mod Models
pub mod Audit
pub mod Normalization
pub mod Security
pub mod Database
pub mod Samples
pub mod Policies
pub mod Releases
pub mod Sessions
pub mod Auth
pub mod Pagination
pub mod Signatures
pub mod Io
pub mod Storage
pub mod Files
pub mod Downloads
pub mod Upload

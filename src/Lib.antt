-- ===== src/Lib.antt =====
-- Folio Harbor, an EPUB library server in Rust: a model of its parts and the theorems about them.
--
-- The program is a workspace of crates. `crates/domain` holds values and state machines,
-- `crates/epub` reads untrusted EPUB archives, `crates/application` holds the use cases over
-- repository ports, `crates/http` the web handlers, and `apps` the server and the worker. An uploaded
-- archive is received into a blob store, imported by a job of the worker, which reads it with the EPUB
-- crate and checks the result against the domain's catalog types, and served by the download handler,
-- which asks the application layer for a grant and streams from the blob store.
--
-- Files and the code they model:
-- - Prelude: shared names; Prelude/Tests, Prelude/Lists, Prelude/Powers and Prelude/Result: Boolean
--   tests on numbers, lemmas on lists and powers, and results of fallible code with `do` blocks.
-- - Text: texts as lists of code points. Text/Chars, Text/Split, Text/Utf8 and Text/Number have the
--   functions of Rust's `str` and `char` that the source calls (trim, split, rsplit_once, UTF-8
--   encoding, parsing of a u64), each with its documented behaviour.
-- - Epub/Error: `EpubErrorCode` (crates/epub/src/error.rs).
-- - Epub/Path: `normalize_path` and `resolve_path` (crates/epub/src/archive.rs), `EpubPath::new`
--   (crates/epub/src/lib.rs). Laws has the form of normal paths, Depth the paths that are refused,
--   Resolve the references.
-- - Epub/Archive: the limits, the look-up of entries and the checks of each round
--   (crates/epub/src/archive.rs and lib.rs). Epub/Xml: the events of the XML library, and attributes.
-- - Epub/Eocd: `preflight` and `find_eocd`, and Epub/Load: `BoundedArchive::read`
--   (crates/epub/src/archive.rs), on what the source and the ZIP library give.
-- - Epub/Links: `strip_fragment` and the links of the readers; Epub/Reader: the loop over the events
--   that they share; Text/Words: `split_ascii_whitespace`.
-- - Epub/Container: `package_path` (crates/epub/src/container.rs); Epub/Navigation: the EPUB 3
--   navigation document (crates/epub/src/navigation.rs).
-- - Epub/Package: the package document (crates/epub/src/package.rs). Manifest and State have its data,
--   Items, Steps and Run its reader, Fallback the search for a readable item, Navigate the choice of
--   the table of contents, Build the publication. Sound, Preserve and Events prove that the reader
--   keeps its document well formed; Spine, Covers and Contents take the parts of the publication, and
--   Laws draws the conclusion.
-- - Epub/Parser: `EpubParser::inspect` and `EpubPublicationParser::parse` with their mappings
--   (crates/epub/src/lib.rs). Epub/Sample: a small book for the tests.
-- - Epub/Ncx: the reader of an EPUB 2 table of contents (crates/epub/src/ncx.rs). State has `NcxState`,
--   Steps what a start tag does, Run what texts and end tags do, the loop and `finish`. Invariant
--   states the well-formedness of a state; Enter and Preserve prove that every step keeps it; Sort and
--   Order draw the conclusions. Moves says what an event does to the
--   points and the entries, and Places, with Fits and Laws, compares the table with a reader that keeps a
--   place for each point.
-- - Domain/Upload, Domain/Lifecycle, Domain/Session, Domain/Codes, Domain/Email, Domain/Metadata,
--   Domain/Hrefs, Domain/Publication: imports/upload.rs, catalog/lifecycle.rs, identity/session.rs,
--   libraries/role.rs with imports/job.rs, identity/email.rs, catalog/wemi.rs,
--   catalog/content_unit.rs and catalog/publication_package.rs of crates/domain/src.
-- - App: `AppError` (crates/application/src/error.rs).
-- - Download: Range, Stream, Disposition and Handler (crates/http/src/routes/download.rs), Grant
--   (crates/application/src/catalog/download_item.rs).
-- - Imports: Retry and Process (crates/application/src/imports/process_import.rs), Worker
--   (apps/worker/src/runner.rs). Process is a function of the answers of its ports and gives, with its
--   result, the calls it has made.
-- - Uploads: Receive (crates/application/src/imports/receive_upload.rs), in the same form, with Log,
--   the monad of results and calls; Chunks, Laws and Order prove what is stored and in which order the
--   ports are called.
-- - Access: `Authorization::require` and the audit events (crates/application/src/authorization.rs and
--   audit.rs).
-- - Catalog: Books (crates/application/src/catalog/list_library_books.rs).
-- - Identity: Login (login.rs), Sessions (sessions.rs) and Reset (reset_password.rs and register.rs of
--   crates/application/src/identity).
-- - Libraries: Members (change_role.rs, remove_member.rs, settings.rs and invite_member.rs) and
--   Invitations (accept_invitation.rs of crates/application/src/libraries), and the Service (api.rs).
-- - Uploads/Create: `UploadService::create` and `get` (crates/application/src/imports/create_upload.rs).
-- - Maintenance: Recovery (crates/application/src/imports/upload_recovery.rs), Cleanup
--   (crates/application/src/imports/cleanup.rs) and Garbage
--   (crates/application/src/catalog/garbage_collect.rs), each with its calls, by the monad in Calls. Cleanup/Drained has
--   the calls of a pass between its beginning and its end.
-- - Each Tests module holds runs of the functions and instances of the theorems.
--
-- Conventions. Fallible code returns a `Result`; the clock is an argument, an instant a natural number
-- and a duration a number too, with a sign where it may be negative; a call of a repository, of a blob store or of a third-party library is a parameter of the function.
-- Loops over a sequence are recursions on it. The streaming loop runs on fuel, one more than the bytes
-- that are left, which is enough since each round sends at least one byte or is the last. The search along
-- the fallbacks of a manifest runs on fuel, one more than its items, which is enough since no item is
-- visited twice. The loops of a cleanup run on fuel too; one more than the
-- uploads to expire is enough for the one that expires them.
-- A counter of a machine word keeps its bound where the source saturates it.
--
-- Not modelled: the input of the XML library and the decoding of the ZIP library, which are
-- third-party code; the rest of the EPUB crate and of the use cases; the PostgreSQL adapters, which are
-- SQL; the local blob store; the wiring of the server and of the worker; and the web client. Overflow
-- of the time library's instants is not modelled.
pub mod Prelude
pub mod Text
pub mod Epub
pub mod Domain
pub mod App
pub mod Access
pub mod Download
pub mod Imports
pub mod Uploads
pub mod Libraries
pub mod Maintenance
pub mod Identity
pub mod Catalog

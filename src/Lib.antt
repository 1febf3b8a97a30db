-- ===== src/Lib.antt =====
-- A model of an IMAP caching server (a Rust workspace), and theorems about its core logic.
--
-- The program. A client speaks IMAP to `crates/imap-server`, which parses each line with
-- `crates/protocol`, logs the user in through `crates/auth`, and answers from the local database and
-- object store (`crates/db`, `crates/storage`). `crates/search` turns SEARCH criteria into a query,
-- `crates/sync` copies mailboxes from the upstream server and sends queued changes back, and
-- `crates/coordination` keeps two workers from doing so for one account at a time.
--
-- Which file models what.
--   Base, Base/*             helpers: lists, Boolean tests, sorting, integers; `Error` and `Result`
--                            of crates/core/src/error.rs
--   Text, Text/*             `str` and `[u8]` with the methods of the standard library that the
--                            program calls, and a map from texts
--   Protocol                 crates/protocol/src/lib.rs: the types, `ok`, `bad`, `no`
--   Protocol/Tokenize        `tokenize`, `quote_imap_string`
--   Protocol/Command         `parse_command`
--   Protocol/NumberSet       `parse_number_set`, `format_number_set`, `format_range`
--   ImapServer/ListPattern   crates/imap-server/src/imap.rs: `imap_list_pattern_matches`
--   ImapServer/StoreFlags    `apply_store_flags`, `dedupe_flags`
--   ImapServer/FetchBytes    `split_rfc822` to `apply_partial`: the bytes of a body section
--   Auth                     crates/auth/src/lib.rs: `MemoryLoginThrottle`, `StaticAuthenticator`
--   Protocol/Store           `parse_store_request`, `parse_flag_list`, `parse_literal_marker`
--   Protocol/Status          `parse_status_items`, `format_status_response` and its defaults
--   Protocol/Fetch           `parse_fetch_items`, `parse_raw_fetch_request`
--   Search, Search/*         crates/search/src/lib.rs: `SearchQuery`, `ImapSearchParser`
--   ImapServer/SearchMatch   crates/imap-server/src/imap.rs: `matches_search_view` and what it calls
--   ImapServer/SearchRequest `parse_search_request`, `parse_sort_request`, `format_esearch_summary`
--   ImapServer/AppendMetadata `parse_append_metadata`
--   ImapServer/Thread, Thread/* `thread_ordered_subject` and the rendering of threads
--   Coordination             crates/coordination/src/lib.rs: `MemorySyncLockManager` as a step relation
--   Domain                   crates/core/src/domain.rs: `Display` and `FromStr` of the enumerations
--   Storage                  crates/core/src/storage.rs and crates/storage/src/memory.rs: content-addressed
--                            keys, `MemoryObjectStore`
--   Domain/Records           crates/core/src/domain.rs: the rows of the tables
--   Db, Db/*                 crates/db/src/repository.rs: the queries on mailboxes, their messages,
--                            queued changes, sessions, UID mappings, contents, quotas and checkpoints;
--                            Db/Messages/* what they keep
--   Session                  crates/imap-server/src/imap.rs: `ImapSession` and its helpers
--   Session/Greeting         CAPABILITY, LOGIN, LOGOUT, STARTTLS, ENABLE, IDLE, CHECK and their like
--   Session/Select           SELECT, EXAMINE, UNSELECT and CLOSE
--   Session/Mailboxes        CREATE, DELETE, RENAME, SUBSCRIBE; Session/Listing LIST, LSUB, STATUS
--   Session/Flags            STORE and UID STORE
--   Session/Expunge          EXPUNGE and UID EXPUNGE
--   Session/Transfer         COPY, MOVE and their UID forms; Session/Checks the tests before them
--   Session/Targets          `resolve_sequence_targets`, `resolve_uid_targets`
--   Session/Verb, Commands   the names of commands; `handle`, `handle_parsed_command`
--   Session/Authenticate     `handle_authenticate_command`, `parse_sasl_plain_auth` and its like
--   Session/Connection       what `handle_connection` sets up, and its branch of STARTTLS
--   Session/Completion/*, Invariant, Grants, Reachable, ReadOnly
--                            the replies' form, the session's invariant, runs of commands, EXAMINE
--   Sync, Sync/*             crates/sync/src/lib.rs: Retry `retry_delay`; Queue `queue_flag_update` and
--                            its like; Job the interface of the server; Apply `apply_append` to
--                            `apply_move_message`; Flush `flush_pending_mutations`
--   Sync/Mirror              the interface of the upstream server, the object store and the parser
--   Sync/Ingest              `ingest_raw_message`, `ingest_parsed_message`, `estimate_message_bytes`
--   Sync/Engine              `sync_mailbox_inner` and what it calls; Engine/* what it does to the rows
--   Sync/Account             `sync_account`, `sync_mailbox`, `remove_missing_mailboxes`
--   Db/Accounts              the account of a synchronisation and the record of its outcome
--   Mime                     crates/mime/src/lib.rs: what the parser of a message gives
--
-- How the source is read. A text is the list of its code points or bytes. Unsigned numbers are the
-- native numbers, with the bounds of their width written where the source parses or adds them; an
-- `i64` is an integer of Base/Int. A call that locks a mutex is one step on the state that the mutex
-- guards, and the clock's reading is an argument. `Result` and `?` are `Result` and `>>=`. The tables
-- of the database are lists of rows in a record `Db`, and a query is a function on them: an `Action`
-- takes the tables and returns them with a result or an error, and `commit` runs a transaction, whose
-- changes are undone on an error. A row keeps the order in which it was inserted, where the program's
-- SQL leaves the order open. What a session, the database and the gauge of the sessions are at is one
-- record `World`, which each handler takes and returns.
--
-- How the parts meet. `handle_line` (Session/Commands) parses a line with Protocol/Command and gives
-- it to the handler of its name; a handler reads and writes the tables through Db/* and queues changes
-- through Sync/Queue; Sync/Flush takes the queued changes that are due and sends them to the server
-- behind the interface `Upstream` (Sync/Job); Sync/Account goes through the mailboxes of the server,
-- Sync/Engine through the messages of one, and Sync/Ingest stores a message. Session/Reachable runs
-- any sequence of commands, with AUTHENTICATE (Session/Authenticate) and the STARTTLS of a connection
-- (Session/Connection), which have handlers of their own.
--
-- Fuel. `token_loop` gets one more than the number of characters, and each round takes a character;
-- `show_digits` gets the number that it prints, which is more than it has digits. That the fuel is
-- enough is proved. `parse_term` of the search parser gets more than the number of tokens and takes a
-- token in every call, and so does each round of `parse_terms`. `strip_loop` gets the length of the
-- subject, and each round takes a prefix away; that this is enough is proved.
--
-- Parameters. `String::from_utf8_lossy`, `security::verify_password`, `NaiveDate::parse_from_str`,
-- the JSON text of a string and the hexadecimal SHA-256 digest are arguments of the definitions that
-- use them. So are, for the session and the synchronisation, the authenticator (`authenticate`), the
-- order of Postgres' collation, the reading of an object, `DateTime::parse_from_rfc3339`,
-- `DateTime::parse_from_str` and the upstream server, which is an interface with a state of its own:
-- `Upstream` for the queued changes, and `Mirror` for the copying, with the object store, the search
-- index and the parser of messages. The decoder of base64 and `str::from_utf8` are an interface of
-- AUTHENTICATE, `Sasl`, and the lock manager is one of the synchronisation of an account, `Locks`.
--
-- Not modelled: the handlers of FETCH, SEARCH, SORT, THREAD and APPEND, which are the argument
-- `others` of the handlers, which reads the session and may change the database; the reading of lines
-- from a connection and the waiting of IDLE; of a synchronisation the limit of concurrent runs; the
-- repository's queries on users, other queries on accounts, cached objects, audit events and the
-- full-text index; runs in which Postgres itself fails; the bounds of identifiers and counters
-- in Postgres' 64-bit and 32-bit columns; the upstream protocol,
-- MIME parsing, the metrics but for the gauge of the sessions, notifications, configuration, and the
-- object stores on disk and on R2.
pub mod Auth
pub mod Base
pub mod Coordination
pub mod Db
pub mod Domain
pub mod ImapServer
pub mod Mime
pub mod Protocol
pub mod Search
pub mod Session
pub mod Storage
pub mod Sync
pub mod Text

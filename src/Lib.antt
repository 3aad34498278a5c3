-- ===== src/Lib.antt =====
-- Hop, a self-hosted SSH jump host: its catalog and what its entry points decide.
--
-- The program. A catalog (SQLite, crates/hop-core/src/catalog) holds access keys, assets,
-- credentials, assignments of assets to keys, the owner of each resource, and a revision. The
-- panel, the local commands and the management interface over HTTP change local resources through
-- crates/hop-core/src/catalog/runtime.rs; a YAML or TOML manifest (manifest.rs) declares resources
-- of a configuration source, which apply.rs makes true of the catalog.
-- The SSH entry asks runtime.rs which assets a key may reach, ssh/tofu.rs whether a target's host
-- key is to be trusted, and ssh/session_registry.rs to end a session; ssh/client.rs logs in at the
-- target with the secrets of the credential, which crypto.rs keeps in envelopes. transfer.rs
-- exports and imports assets and credentials as CSV.
--
-- The files.
--   Prelude: texts as lists of code points (`str::trim`, `str::len` and the ASCII tests as Rust
--     documents them), sorted association lists for BTreeMap and BTreeSet, `Outcome` for Result,
--     and in Utf8 `String::from_utf8`.
--   Errors, Models: crates/hop-core/src/errors.rs and models.rs. Models.Laws has the proofs.
--   Manifest: the types of crates/hop-core/src/catalog/manifest.rs. Manifest.Names, Resolve,
--     References and Merge have its functions under their names; `ResolvedCredential`,
--     `ResolvedAsset` and `ResolvedAccess` are one generic type, `Resolved`.
--   Catalog: the tables of crates/hop-core/src/catalog/schema_v0_2.sql as lists of rows;
--     Catalog.Statements has one function for each SQL statement that writes, with the UNIQUE,
--     CHECK and foreign key constraints that the statement meets.
--   Runtime: crates/hop-core/src/catalog/runtime.rs. Runtime.Access has the queries, Runtime.Keys,
--     Assets, Credentials and Sessions the operations under their names, Runtime.Listings the
--     listings in their order, Runtime.Changes one type of all local changes. The proofs are in the
--     children of Runtime.Laws.
--   Bootstrap: the opening of a catalog, crates/hop-core/src/catalog.rs, on a file that is its
--     version, its tables and its journal mode, with the file as it is afterwards, also after an
--     error. Bootstrap.Status has `status` and `record_apply_failure`, Bootstrap.Laws and
--     Bootstrap.Noted the proofs.
--   Apply: crates/hop-core/src/catalog/apply.rs, its functions under their names. Apply has the
--     plan and its helpers (`miss_one` is one round of the loop of `plan_missing`), Apply.Hashes,
--     Load, Deletes and Build what leads to a plan, Apply.Execute the statements of the
--     transaction, and Apply.Run the entry points. Each query before the transaction has its own
--     view of the catalog (`ReadPoints`), so that a change between them can be seen. Apply.Owned,
--     Apply.Claims and the children of Apply.Laws have the proofs.
--   Envelope: crates/hop-core/src/crypto.rs, on a Unix system; Envelope.RoundTrip has the proofs.
--   Startup: the data of crates/hop-core/src/config.rs; Startup.Validate has its checks,
--     Startup.Laws the proofs.
--   Tui: `TuiApp` of crates/hop-server/src/tui/app.rs with its cache; Tui.Spec is the panel
--     without one, Tui.Draw the list that crates/hop-server/src/tui/views.rs draws, line by line.
--     Tui.Laws, Tui.Drawn and Tui.Connects have the proofs.
--   Transfer: crates/hop-server/src/transfer.rs. Csv is its text format, Rows the rows, the export
--     and the readers, Import the loop over the rows with its conflict policies. RoundTrip and Laws
--     have the proofs. The JSON format is a parameter (serde_json).
--   Ssh.Tofu, Ssh.Registry: crates/hop-server/src/ssh/tofu.rs and session_registry.rs, with the
--     receivers that are alive and the requests that were sent as `Channels`.
--   Ssh.Ingress: what crates/hop-server/src/ssh/server.rs decides for a client, with the catalog
--     after it; what a request starts is its result. Ssh.Laws has the proofs.
--   Ssh.Proxy: crates/hop-server/src/ssh/proxy.rs, the relay of a forwarded connection and, in
--     Bridge, its session, over what the network does (`RelayRound`, `TcpRun`). Ssh.Proxy.Laws has
--     the proofs.
--   Target: crates/hop-server/src/ssh/client.rs, with the network and the host at its other end as
--     the parameter `Peer`; a connection gives its steps, `TargetStep`, in their order. The proofs
--     are in the children of Target.Laws.
--   Local: crates/hop-server/src/local_cli.rs; a command gives the text that it prints.
--   Api: crates/hop-server/src/control_api.rs. Api has the requests, Api.Errors the errors and the
--     handler that ends at the first of them, Secrets `build_credential`, Views what is shown,
--     Handlers and Configuration the handlers (`create_asset_handler` is `create_asset`), Router
--     the choice among them. A handler runs from its first step to its last without another
--     between; the parsers of the two formats of a manifest are fields of `Context`. The proofs are
--     in the children of Api.Laws.
--   Command: crates/hop-server/src/main.rs and manifest_io.rs once the arguments are read, over the
--     two files of a `Disk`: Scope the manifests of an apply, Start the opening and `serve` until
--     its listeners run, Applies the apply, diff and status commands, Bulk export and import. The
--     children of Command.Laws have the proofs.
--   Tests: a small catalog, and the theorems at concrete inputs.
--
-- State and errors. An operation that the source wraps in a transaction takes the database at
-- `begin` and gives the database at `commit`; an error gives none, which is the rollback. What
-- `new_id()` draws and the current time are arguments. Error messages are those of the source,
-- less numbers and the text of foreign errors. Numbers of the revision and of rows are unbounded;
-- a port that the source reads as i64 is an integer, and its range is checked as the source does.
--
-- Outside the model. SQLite: a statement means what its SQL says, on the rows in memory; failures
-- of the disk or the pool, and the times of the last change of credentials and keys are left out,
-- and so is the read of the new row that follows a commit, but where a handler shows that row. The
-- rows of health are a table beside the others. serde's JSON of tags is the parameter
-- `TagsJson`; files, environment variables and the formats of russh keys are the parameter
-- `Environment`. The ciphers, HKDF and base64 are `Ciphers`; the digests and the JSON printer are
-- `Digests`; the parsers of addresses and URIs and the operations on paths are `Parsers`; globs and
-- the order of paths are `Paths`; the fuzzy matcher is an argument. The recursion is on lists; the
-- only fuel is that of `decimal`, which takes one unit for each division by ten and has one more
-- than the number.
-- Not modelled: the parsing of the configuration and manifest files, the bridges of the panel and
-- of commands, the listeners, the routes' paths and the CORS layer of the management interface, the
-- arguments of the command line, and the rendering of the terminal panel.
pub mod Prelude
pub mod Errors
pub mod Models
pub mod Manifest
pub mod Catalog
pub mod Bootstrap
pub mod Runtime
pub mod Apply
pub mod Envelope
pub mod Startup
pub mod Transfer
pub mod Ssh
pub mod Target
pub mod Tui
pub mod Local
pub mod Api
pub mod Command
mod Tests

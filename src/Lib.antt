-- ===== src/Lib.antt =====
-- Verification library of the mentoring application (Python, src/mentorapp).
--
-- The application's server has an access layer (who may do what, and the sessions and links that say
-- so), an API layer (routers over the read and write engines), an automation layer (the CRM outage
-- handling, background jobs, workprocess runs), a CRM client, a storage layer on SQLAlchemy, and a ui
-- layer that states what the frontend renders. What is modelled is the part that decides: the classes
-- and functions that keep a state of their own or choose an outcome, without the database and HTTP.
--
-- Access/Sessions.antt and its children model src/mentorapp/access/sessions.py: `SessionManagement`
-- (establish, resolve, reauthenticate, require_reauth, logout, _lookup, _mint_reference,
-- _expire_pending_past_grace) over the `SessionStore` seam, a record of load and save with the law
-- of what a load after a save reads back; `InMemorySessionStore` fills it, and so does
-- `StoredSessionStore` over its rows (Stored, Custody), so the theorems over the seam hold for both.
-- Access/Credentials.antt models src/mentorapp/access/credentials.py, the sealing of a credential.
-- Access/Tokens.antt and its children model src/mentorapp/access/tokens.py: `TokenActionService`
-- (mint, validate, redeem, revoke) over the `TokenActionStore` seam, which `InMemoryTokenActionStore`
-- fills, and so does `StoredTokenActionStore` over its two tables (Stored, Refines, Swaps).
-- Access/Views.antt models src/mentorapp/access/views.py, capabilities and the rules of a grid view;
-- Access/Enforcement.antt src/mentorapp/access/view_enforcement.py, the same rules over stored rows.
-- Access/Grants.antt models src/mentorapp/access/grants.py, the role grants on data sources,
-- and its child Areas src/mentorapp/access/areas.py, the areas derived from them; Lookups
-- src/mentorapp/access/lookup_grants.py; Launches src/mentorapp/access/workprocess.py.
-- Ui/Recovery.antt and its child model src/mentorapp/ui/outage_recovery.py: the notices of an outage
-- and `DraftRecovery`.
-- Automation/Outage.antt and its children model src/mentorapp/automation/crm_outage.py: the circuit
-- breaker `CrmHealthMonitor`, `degraded_crm_read`, and `submit_or_preserve` over the drafts of
-- `InMemoryDraftStore`.
-- Automation/Workprocess.antt and its children model src/mentorapp/automation/workprocess_engine.py:
-- `step_graph_problems` on any JSON document, and the run verbs launch_run, answer_step, cancel_run
-- and commit_run, with the storage row's states of src/mentorapp/storage/workprocess.py.
-- Automation/ChangeFeed.antt models src/mentorapp/automation/change_feed.py: catch-up reads after a
-- watermark and the push loop.
-- Automation/Worker.antt models src/mentorapp/automation/worker.py: claims under a lease, completion,
-- retry with backoff or parking, and a worker pass.
-- Api/FieldEdit.antt and its children model src/mentorapp/api/field_edit.py: `FieldEditors`, which
-- resolves its collisions by Api/EditSafety.
-- Api/EditSafety.antt and its children model src/mentorapp/api/edit_safety.py: the resolution of a
-- stale save, and `EditorWindows`.
-- Api/Writes.antt and its children model src/mentorapp/api/write_engine.py: the validator (Rules), the
-- payload's checks (Changes, Checks), the merge of changed fields (Merges), and `partial_update` and
-- `restore_record` (Updates, Patches, Refused, Restores), and `create_record` with the duplicate rules
-- (Matching, Creates, Found, Doubles, Duplicates), with `normalize_for_match` of
-- src/mentorapp/automation/normalization.py.
-- Api/Forms.antt and its children model src/mentorapp/api/form_validation.py over the field settings
-- of src/mentorapp/api/routers/schema.py: the exit check, the save sweep, and the placing of a
-- save's errors.
-- Api/Creating.antt and its children model src/mentorapp/api/record_create.py: `CreateFlow`, from the
-- seed to the POST, over the same sweep and the same create.
-- Api/Lists.antt and its children model src/mentorapp/api/list_engine.py: keyset pages, the
-- total count, and the cursors (Cursors).
-- Api/CrmWrites.antt and its child model src/mentorapp/crm/write_through.py and
-- src/mentorapp/api/crm_writes.py: the CRM write of a request and the job that retries it.
-- Base.antt and its children are shared: tests, lists, decidable equality, Python's dict, `sorted` on
-- names, JSON values, text, and methods that change a state and may raise.
--
-- The parts meet at their seams: a session and a token action are reached through their stores, a
-- workprocess commit calls the program's own handler inside the same transaction, and a stale editor
-- that holds its edits through a save notice is what `resolve_concurrent_save_conflict` settles later.
-- A form validates by the write engine's own validator, over the settings that the schema endpoint
-- serves of the same registry rows.
--
-- How the code is read. Moments and durations are natural numbers of microseconds; each reading of
-- the clock, each fresh identifier and each random secret is an argument, in the order in which
-- the code draws them. Identifiers (UUIDs) are natural numbers, and role names, keys and messages
-- are strings. SHA-256, HMAC and the text form of a UUID are parameters, with what is relied on as
-- named hypotheses (a UUID's text parses back and holds no dot). The rows of the change feed come
-- as the query's `ORDER BY` gives them, in strictly ascending order of the keyset, which is a
-- hypothesis; a list read's table comes in the order of its sort column and key likewise. Python's
-- parsers of UUIDs, dates and datetimes, and the JSON and base64 of a cursor, are parameters. What the
-- database does with a flush, landing it or finding that another write came first, is an argument.
-- So are `str.isdigit`, `str.lower` and SQL's `lower(trim(...))`, Python's `str` and `dict` of a JSON
-- value, and the CRM itself: what a write answers and leaves. An
-- exception is a value, and a method gives the state back beside its result, so
-- that what was written before a raise stays written. A record that the in-memory stores share
-- with their caller is saved after each change of it, so the model passes records by value. Log
-- lines are left out. Loops are structural, except three on fuel that is proved enough: the push
-- loop of the change feed, on the number of entries after its watermark plus one, the worker pass, on
-- the number of due jobs plus one, and a client's reading of a list page by page, on the number of
-- rows plus one. The pass is modelled with the moment that it can be
-- given, the same for all its jobs.
--
-- What a create form does between a POST and its answer is not modelled, nor a cursor over dates,
-- times without a date, UUIDs or decimals. Not modelled here: the routers and the dependency wiring, the CRM's HTTP
-- client, the database schema and its migrations, the ui layer's documents, and the TypeScript
-- frontend.
pub mod Base
pub mod Access
pub mod Automation
pub mod Api
pub mod Ui

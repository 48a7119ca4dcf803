-- ===== src/Lib.antt =====
-- dev_tools_distribution_platform: pulls releases from forges, checks them, and publishes them as
-- TUF targets.
--
-- The program's parts. `packages/dist-core` names targets and roles and writes the TUF repository.
-- `packages/dist-registry` is the database of sources and jobs through which the services work
-- together: the web application (`packages/dist-admin`) registers and edits sources, the ceremony
-- changes their status, and the workers claim jobs. `packages/dist-ingest` fetches a release, admits it
-- to quarantine, checks where it was built and what it holds, decides, and queues what it promotes.
-- `packages/dist-sign` claims what is queued, hashes the quarantined file again, and publishes it.
--
-- Which file models what:
--   Base            texts as lists of code points, bytes, JSON values, exceptions as values (Result),
--                   and functions that change a state and may raise (Exec)
--   Core.Naming     packages/dist-core/src/dist_core/naming.py: segments, TargetKey, ChannelKey,
--                   CurrentRelease, ReleaseInfo, in_rollout
--   Core.Roles      packages/dist-core/src/dist_core/roles.py: roles, custody, application ids
--   Core.Repository packages/dist-core/src/dist_core/repository.py: open, close and store_payload;
--                   Operations its initialize, add_app, add_release, set_current and publish, Order the
--                   log of the files it replaces, Reading what a client finds in them
--   Registry.Models, Registry.Schema
--                   packages/dist-registry/src/dist_registry/models.py and schema.sql: the rows, the
--                   tables as a record Db, and the constraints
--   Registry.Sources, Registry.Jobs, Registry.Accounts
--                   packages/dist-registry/src/dist_registry/store.py, one function for each of its
--                   own; Registry.Statements runs any sequence of them
--   Ingest.Provenance, Ingest.Attestation, Ingest.Gates, Ingest.Quarantine, Ingest.Policy
--                   the modules of those names of packages/dist-ingest/src/dist_ingest
--   Ingest.Sources  packages/dist-ingest/src/dist_ingest/sources.py: the policy of a stored source
--   Ingest.Releases packages/dist-ingest/src/dist_ingest/forge.py: releases, the names of their assets
--                   and the versions of tags
--   Ingest.Schedule packages/dist-ingest/src/dist_ingest/worker.py: the cheap check before a poll
--                   (_unchanged_since_last_poll), the loop of tick, _hand_off_to_signer
--   Sign.Worker     packages/dist-sign/src/dist_sign/worker.py: do_publish, run_job, tick
--   Admin.Forms     packages/dist-admin/src/dist_admin/forms.py: the validators of fields; Sources its
--                   source_from_form and source_edit_from_form
--   Admin.Auth      packages/dist-admin/src/dist_admin/auth.py, and of app.py current_operator,
--                   _check_csrf, login, logout and _bootstrap_operator
--   Admin.Routes    packages/dist-admin/src/dist_admin/app.py: create_source, edit_source and
--                   source_action, and respond, which serves any of them to a cookie
-- The child modules hold the proofs, and the modules Examples, Scenarios and Rounds concrete runs.
--
-- How the code is rendered. An exception is its class (Base.Results); the text of a message is not
-- modelled, and the reason of an outcome is the data that it renders. A function of the store is one
-- atomic transaction: it commits, or raises and leaves the tables as they were; concurrent services
-- are sequences of such statements. Ids and times are numbers, and uuid4, now() and the names of
-- temporary files are arguments. A file that the code opens more than once is read each time: what
-- others write in between is an argument (of promote_file), or the readings are (Payload, Mount).
-- The gates of ingest, though, read the admitted file as admission left it, where the code opens it
-- for each gate: a change between admission and the gates is not modelled, and promote hashes the
-- file again. A loop over a list is recursion on it, and `digits` runs on fuel that is one more than
-- the number, which has no more digits than that.
--
-- Parameters, for code that is not of this repository: SHA-256, the JSON codec, base64, the keys of
-- the cryptography library, scrypt, lower-casing and stripping of texts, int and urlsplit, the
-- loading of a PEM, the verifier of sigstore, zipfile and tarfile, the scanner and the publisher
-- check, and of the library tuf the constructors of metadata, Root.add_key, what do_snapshot and
-- do_timestamp make of the metadata, and the signer. The ratio of an archive's expansion is compared
-- exactly, where the code divides in floating point. The clocks of the registry and of the
-- repository are two parameters, since the first counts what its intervals are stated in and the
-- second what metadata expires in.
--
-- Not modelled: run_job of the ingest worker and what it calls, the clients of the forges (their HTTP
-- library and all that reads from it), _scan of the repository, which rebuilds the state of a directory
-- at a restart, the pages of the web application and how long a login takes, the delegation ceremony
-- and its scripts, the client and its bindings, and the deployment.
pub mod Admin
pub mod Base
pub mod Core
pub mod Ingest
pub mod Registry
pub mod Sign

-- ===== src/Lib.antt =====
-- Verification library of the Nexus Engine backend, a FastAPI service over one PostgreSQL database.
--
-- Parts and files. The services under app/services keep no state of their own: each call reads and
-- writes tables through a session, and most writes also append to the audit log.
-- - Base, Json: shared names, tables as lists of rows, JSON values.
-- - Runtime: what the services call outside the repository (hash, signature, bcrypt, JWT, clock,
--   random values, text functions, settings), as one record that every operation takes.
-- - Models, Database: the rows of app/models/{audit,config,user,hsm,rbac,tenancy,
--   notification,anomaly}.py and the tables.
-- - Tx: a session of app/db/session.py as explicit state passing with exceptions. `saved` is what is
--   committed and `db` what the session sees; `request` opens a session, runs a call and drops what
--   it has not committed. Tx/Rules and Tx/Keeps hold the proof rules for calls.
-- - Metadata, Audit: app/services/audit_service.py (sanitize_metadata, append_entry_in_transaction,
--   append_entry, verify_chain, get_chain_summary, get_entry, list_entries, export_entries).
-- - Payload, Configurations: the versioned documents of app/services/config_service.py, every
--   operation of them; Parameters: the staged parameters of the same file.
-- - Auth: app/services/auth_service.py and the token functions of app/core/security.py;
--   Auth/Endpoints: app/api/v1/endpoints/auth.py and the guards of app/api/deps.py.
--   Auth/Keeps says what every request of the endpoints keeps, from what its writes keep.
-- - Hsm: the keys of app/services/hsm_service.py; Hsm/Ceremonies: its ceremonies;
--   Hsm/Reads: its answers.
-- - Rbac: app/services/rbac_service.py (Rbac/Tables its requests and rows, Rbac/Reads its answers).
-- - Tenancy: app/services/tenancy_service.py (Tenancy/Tables its requests and rows, Tenancy/Reads and
--   Tenancy/Overview its answers); `manage` is one request of app/api/v1/endpoints/tenancy.py that
--   writes, after its guard. Tenancy/Sound states what the tables keep.
-- - Notifications: app/services/notification_service.py, with the alert rules in
--   Notifications/Rules. Patch: the fields of a partial update.
-- - Anomalies: app/services/anomaly_service.py, its reads in Anomalies/Reads; a score is a number of
--   millionths. `alter` is one request of app/api/v1/endpoints/anomalies.py that writes.
--   Anomalies/Entries and Anomalies/Bulk are about the change of many, Anomalies/Trends about trends.
-- - Tests: runs at concrete inputs, with a runtime that can be evaluated.
-- A definition has the name of the function it models, without a leading underscore.
--
-- Conventions. A row is written at once: the sessions have autoflush off, and the services flush
-- before each select that must see an earlier write. A write to attributes is an update of the
-- row with that key. `add` refuses what a primary key or a unique column refuses, as an
-- integrity error (500). An `Enum` column takes the value or the name of a member, as SQLAlchemy
-- does. Requests run one after another. The clock, the generators and the identity column are
-- counters that a rollback does not take back; since the runtime is
-- arbitrary, the order in which a call draws a clock value and a random one carries no meaning.
-- A time is a number of microseconds of UTC, an identifier a number, a dict its entries in
-- insertion order, a float column its literal. Set iteration is taken in the order of the payload.
-- Loops are structural recursion; the only fuel is that of decimal printing (Base/Print), where a
-- number has at most as many digits as its value, or one.
--
-- Not modelled: the columns created_at and updated_at where no service reads them, the measured
-- duration of a verification and the time of an export, the validation of requests by pydantic, the
-- widths of text columns, concurrent requests, rotation percentages and other floats, and the
-- services for compliance, engine, operations and the dashboard; of anomalies the overview other
-- than its severities. Of the trigger of the database that refuses updates of the audit log the
-- model has what it does to the deletion of a tenant.
pub mod Base
pub mod Json
pub mod Runtime
pub mod Metadata
pub mod Models
pub mod Database
pub mod Tx
pub mod Patch
pub mod Audit
pub mod Payload
pub mod Configurations
pub mod Parameters
pub mod Auth
pub mod Hsm
pub mod Rbac
pub mod Tenancy
pub mod Notifications
pub mod Anomalies
mod Tests

-- ===== src/Lib.antt =====
-- The planes of the demo: how tenants are admitted, how one coordinator provisions the pair of
-- clusters of a tenant, how the control plane records a tenant and says so, how a configuration gets
-- into a cluster, and what the tables say when connections fail.
--
-- A client posts a tenant to the management API (src/plane_demo/management/api.py), which calls the
-- database function `accept_tenant` (sql/management.sql, or sql/management-prepared.sql where capacity
-- is prepared in advance). The coordinator (src/plane_demo/management/provisioner.py) holds the only
-- provisioner session, claims the pending operation through `OperationStore`
-- (src/plane_demo/shared/db.py), prepares or reuses the pair through a provider
-- (src/plane_demo/management/provisioning.py), and records the outcome. The control reconciler
-- (src/plane_demo/control/reconciler.py) reads the tenants of its pair from the management database,
-- makes sure that the control database has them (sql/control.sql), and reports to the management
-- database. A client changes a tenant's configuration at the control API
-- (src/plane_demo/control/api.py). The data reconciler (src/plane_demo/data/reconciler.py) writes it
-- to its cluster through `ConfigMaps` (src/plane_demo/shared/kube.py) and reports to the control
-- database.
--
-- Before that, an operator's scripts read the configuration of the deployment, choose the sizes that
-- its quotas allow (scripts/operations/azure), and write the file that `OperatorConfig` loads, with the
-- addresses of every plane; the services read their settings from the environment, and the credentials
-- are in Key Vault or in Kubernetes (src/plane_demo/management/providers/secret_store.py).
--
-- Files:
--   Prelude           names and lemmas that all parts share
--   Numbers           integers and floats, with the comparisons of floats that the code makes
--   Error             the exceptions, and results that carry them
--   Session           a psycopg connection whose round trips may be refused or lost; `transaction`
--   Tables            the tables of sql/management.sql as records and lists
--   Operations        `OperationStore`: `_locked`, `_observe`, `interrupt_running`, `claim_pending`,
--                     `observe`, `complete`
--   Admission         both functions `accept_tenant` and the handler `create_tenant`
--   Provisioning      `prepare_pair` and `provision_pair` over the protocol `Provider`
--   Provisioner       `run_once` and `run_loop` of the coordinator
--   Paging            `page` and the query for one page of events
--   ManagementApi     the handlers `tenant_status` and `operation_status`
--   Text, Dict        the patterns, texts and dictionaries that the code uses
--   Identity          src/plane_demo/management/providers/identity.py: `DemoConfig`, its values and
--                     names; its constructor is `construct`
--   Codes             the pattern of error codes
--   Reports           the function `report_control` of sql/management.sql
--   ControlTables     the tables and functions of sql/control.sql
--   ControlApi        the handlers of src/plane_demo/control/api.py; its `tenant_status` is
--                     `config_status` here, and its `update_configuration` is `put_configuration`
--   ControlReconciler `report` and `run_once` of the control reconciler
--   ConfigMaps        the class `ConfigMaps`; its `_read` is `read_map` here, its `_parse` is `parse`
--   DataReconciler    src/plane_demo/data/reconciler.py; its `report` is `report_applied` here, and its
--                     `run_once` is `reconcile_once`
--   CredentialStore   src/plane_demo/management/providers/secret_store.py: `_OwnedStore`, with its
--                     subclasses in CredentialStore/Kubernetes and CredentialStore/KeyVault
--   Json, Network     the values of a parsed file, and `validate_network` of
--                     src/plane_demo/management/provisioning.py
--   Operator          `OperatorConfig` of src/plane_demo/management/provisioning.py: its `from_dict` in
--                     Operator/Load, over the checks of the modules beside it
--   Settings          src/plane_demo/shared/settings.py
--   DataApi           src/plane_demo/data/api.py
--   NodeSizes         scripts/operations/azure/node_sizes.py, up to the eligible sizes
--   PostgresSizes     `available_sizes` of scripts/operations/azure/postgres_sizes.py
--   Auth              src/plane_demo/shared/auth.py
--   Tests             concrete tables, and the theorems applied to them
--
-- A statement of SQL is a function on the tables, run by `execute`; a session carries the fates of its
-- next round trips as a list, and a theorem for every list holds for every failure of the connection.
-- A provider is a record of functions on a state of its own, and may do and raise anything; so is the
-- Kubernetes API. The uuids, the clock and the collation of the server are arguments.
--
-- `run_loop` runs until it is stopped: the model takes the number of its rounds, and the theorems hold
-- for every number. A client that follows pages may read one more page than there are events, which is
-- enough for the last one.
--
-- Not modelled: the commands that a provider runs (az, kubectl, rad), the factory of the Key Vault
-- client, the bootstrap, the registry of environments, the deployment and cleanup scripts but for the
-- two selections of sizes, the harness, logging, sleeping and signals.
pub mod Prelude
pub mod Numbers
pub mod Error
pub mod Session
pub mod Tables
pub mod Operations
pub mod Admission
pub mod Provisioning
pub mod Provisioner
pub mod Paging
pub mod ManagementApi
pub mod Text
pub mod Dict
pub mod Identity
pub mod Codes
pub mod Reports
pub mod ControlTables
pub mod ControlApi
pub mod ControlReconciler
pub mod ConfigMaps
pub mod DataReconciler
pub mod CredentialStore
pub mod Auth
pub mod Json
pub mod Network
pub mod Settings
pub mod Operator
pub mod DataApi
pub mod NodeSizes
pub mod PostgresSizes
pub mod Tests

-- ===== src/ClientStore/Schema.antt =====
-- client-store/src/lib.rs, run_migrations: the schema's versions. A table that was not created yet
-- is `none`; `PRAGMA user_version` is a number.
use parda.Base.{ℕ, ◌≤◌, ◌≡◌, ◌≢◌, Option, none, some, [], String, arith, ltb, if◌then◌else◌}
use parda.HashMap.{HashMap}
use parda.ClientStore.{MessageRow, PendingRow}

abbrev pub current_schema_version : ℕ
current_schema_version = 2

pub record Database : Type 0 where
  pub user_version : ℕ
  pub messages : Option (HashMap String MessageRow)
  pub pending_self_destruct : Option (HashMap String PendingRow)

-- `CREATE TABLE IF NOT EXISTS`
abbrev pub create_if_not_exists {ℓ} : {A : Type ℓ} → A → Option A → Option A
create_if_not_exists fresh none = some fresh
create_if_not_exists fresh (some table) = some table

pub to_v1 : ℕ → Database → Database
to_v1 current db =
    if ltb current 1 then record db { messages = create_if_not_exists [] db.messages } else db

pub to_v2 : ℕ → Database → Database
to_v2 current db =
    if ltb current 2
    then record db { pending_self_destruct = create_if_not_exists [] db.pending_self_destruct }
    else db

pub set_version : ℕ → Database → Database
set_version current db =
    if ltb current current_schema_version
    then record db { user_version = current_schema_version }
    else db

pub run_migrations : Database → Database
unfolding to_v1 to_v2 set_version
run_migrations db =
    let current = db.user_version in set_version current (to_v2 current (to_v1 current db))

-- A database has the tables of its version.
pub record HasTables (db : Database) : Type 0 where
  pub v1 : 1 ≤ db.user_version → db.messages ≢ none
  pub v2 : 2 ≤ db.user_version → db.pending_self_destruct ≢ none

run_migrations_idle :
    (db : Database) → current_schema_version ≤ db.user_version → run_migrations db ≡ db
unfolding run_migrations to_v1 to_v2 set_version
run_migrations_idle db h = ground arith

user_version-run_migrations :
    (db : Database) → current_schema_version ≤ (run_migrations db).user_version
unfolding run_migrations to_v1 to_v2 set_version
user_version-run_migrations db = ground arith

-- Migrating a database that has the tables of its version gives one of at least the current
-- version with both tables; a table that was there keeps its rows and a new one is empty; and
-- migrating again changes nothing.
pub run_migrations_lem :
    (db : Database)
    → HasTables db
    → let db' = run_migrations db in
      (current_schema_version ≤ db'.user_version)
      × (db'.messages ≡ create_if_not_exists [] db.messages)
      × (db'.pending_self_destruct ≡ create_if_not_exists [] db.pending_self_destruct)
      × (run_migrations db' ≡ db')
unfolding run_migrations to_v1 to_v2 set_version
run_migrations_lem db has = (
  user_version-run_migrations db,
  ground (arith, has.v1),
  ground (arith, has.v2),
  run_migrations_idle (run_migrations db) (user_version-run_migrations db),
)

-- ===== src/Database.antt =====
-- The connection to the database and the migrations, pkg/db/db.go. The pool is that of package pgxpool and
-- the directory that of the operating system: both are known by what their calls return. `S` is the
-- state of the server and the driver.
use eks_financial_orchestrat.Common.{
  ℕ, String, Bool, true, false, Option, none, some, List, [], ◌∷◌, ◌*◌, ◌==◌, if◌then◌else◌,
}
use eks_financial_orchestrat.Common.Result.{Result, ok, err, ◌>>=◌, map_err}
use eks_financial_orchestrat.Common.Text.{ends_with, is_after}
pub mod Migrations
mod Tests

-- The fields of `pgxpool.Config` that are set, over what ParseConfig reads from the text, `C`.
pub record PoolConfig (C : Type 0) : Type 0 where
  pub parsed : C
  pub max_conns : ℕ
  pub min_conns : ℕ
  pub health_check_period : ℕ
  pub max_conn_lifetime : ℕ
  pub max_conn_idle_time : ℕ

pub record PoolDriver (C P S : Type 0) : Type 0 where
  pub parse_config : String → Result String (PoolConfig C)
  pub new_with_config : PoolConfig C → S → Result String P × S
  pub ping : P → S → Option String × S
  pub close : P → S → S

pub data OpenError : Type 0 where
  parsing_failed creating_failed pinging_failed : String → OpenError

-- `DB`: `none` is a nil pool.
pub record Db (P : Type 0) : Type 0 where
  pub pool : Option P

-- In nanoseconds.
abbrev pub second : ℕ
second = 1000000000

module _ {C P S : Type 0} (driver : PoolDriver C P S) where
  abbrev pub with_defaults : PoolConfig C → PoolConfig C
  with_defaults cfg = record cfg {
    max_conns = 10;
    min_conns = 2;
    health_check_period = 30 * second;
    max_conn_lifetime = 30 * 60 * second;
    max_conn_idle_time = 5 * 60 * second;
  }

  -- A pool that does not answer is closed.
  abbrev pub verify : P → Option String × S → Result OpenError (Db P) × S
  verify pool (some e, s) = (err (pinging_failed e), driver.close pool s)
  verify pool (none, s) = (ok (record { pool = some pool }), s)

  abbrev pub connect : Result String P × S → Result OpenError (Db P) × S
  connect (err e, s) = (err (creating_failed e), s)
  connect (ok pool, s) = verify pool (driver.ping pool s)

  abbrev pub open_parsed : Result String (PoolConfig C) → S → Result OpenError (Db P) × S
  open_parsed (err e) s = (err (parsing_failed e), s)
  open_parsed (ok cfg) s = connect (driver.new_with_config (with_defaults cfg) s)

  unfoldable pub new_db : String → S → Result OpenError (Db P) × S
  new_db conn_string s = open_parsed (driver.parse_config conn_string) s

  unfoldable pub close_db : Db P → S → S
  close_db d s = elim d.pool [ none ↦ s | some pool ↦ driver.close pool s ]

-- `os.DirEntry`
pub record DirEntry : Type 0 where
  pub name : String
  pub is_dir : Bool

pub record Directory : Type 0 where
  pub read_dir : String → Result String (List DirEntry)
  pub read_file : String → Result String String

pub data MigrationError : Type 0 where
  directory_failed : String → MigrationError
  reading_failed executing_failed : String → String → MigrationError

-- The loop that collects the names of the files whose names end in ".sql".
unfoldable pub sql_files : List DirEntry → List String
sql_files [] = []
sql_files (e ∷ es) =
    let rest = sql_files es in
    if e.is_dir then rest else if ends_with e.name ".sql" then e.name ∷ rest else rest

abbrev pub insert_name : String → List String → List String
insert_name a [] = a ∷ []
insert_name a (b ∷ bs) =
    let rest = b ∷ insert_name a bs in if is_after a b then rest else a ∷ b ∷ bs

-- `sort.Strings`
unfoldable pub sort_names : List String → List String
sort_names [] = []
sort_names (a ∷ as_) = insert_name a (sort_names as_)

-- `strings.TrimSpace(sql) == ""`
abbrev pub is_blank : (String → String) → String → Bool
is_blank trim_space sql = trim_space sql == ""

-- What the loop does with one file: an error, or `none` to go on. `exec` is `d.Pool.Exec`.
abbrev pub executed : {S : Type 0} → String → Option String × S → Option MigrationError × S
executed name (none, s) = (none, s)
executed name (some e, s) = (some (executing_failed name e), s)

module _ {S : Type 0} (exec : String → S → Option String × S) (trim_space : String → String) where
  abbrev pub run_content : String → Result String String → S → Option MigrationError × S
  run_content name (err e) s = (some (reading_failed name e), s)
  run_content name (ok sql) s =
      if is_blank trim_space sql then (none, s) else executed name (exec sql s)

-- The loop returns at the first error.
abbrev pub or_stop :
    {S : Type 0}
    → Option MigrationError × S
    → (S → Option MigrationError × S)
    → Option MigrationError × S
or_stop (some e, s) rest = (some e, s)
or_stop (none, s) rest = rest s

-- `join` is `filepath.Join(migrationsDir, name)`.
module _ {S : Type 0} (dir : Directory) (exec : String → S → Option String × S)
    (trim_space : String → String) (join : String → String → String) where
  unfoldable pub run_file : String → String → S → Option MigrationError × S
  run_file migrations_dir name s =
      run_content exec trim_space name (dir.read_file (join migrations_dir name)) s

  unfoldable pub run_files : String → List String → S → Option MigrationError × S
  run_files migrations_dir [] s = (none, s)
  run_files migrations_dir (name ∷ names) s =
      or_stop (run_file migrations_dir name s) λ s'. run_files migrations_dir names s'

  unfoldable pub run_migrations : String → S → Option MigrationError × S
  run_migrations migrations_dir s = elim (dir.read_dir migrations_dir) [
    | err e ↦ (some (directory_failed e), s)
    | ok entries ↦ run_files migrations_dir (sort_names (sql_files entries)) s
  ]

-- ===== src/Database/Tests.antt =====
-- Migrations of a small directory, where the state is the list of the texts that were executed.
use mathlib.Core.List.{Perm}
use eks_financial_orchestrat.Common.{
  ◌≡◌, refl, String, true, false, Option, none, some, List, [], ◌∷◌, ◌==◌, if◌then◌else◌,
}
use eks_financial_orchestrat.Common.Result.{ok, err}
use eks_financial_orchestrat.Database.{
  DirEntry, Directory, PoolDriver, pinging_failed, executing_failed, sql_files, sort_names,
  run_file, run_files, run_migrations, new_db, close_db,
}
use eks_financial_orchestrat.Database.Migrations.{
  IsAscending, Outcome, migration_names, run_migrations-Outcome,
}

abbrev file : String → DirEntry
file name = record { name = name; is_dir = false }

abbrev entries : List DirEntry
entries =
    file "002.sql"
    ∷ file "notes.txt"
    ∷ record { name = "old.sql"; is_dir = true }
    ∷ file "001.sql"
    ∷ file "003.sql"
    ∷ file "004.sql"
    ∷ []

abbrev directory : Directory
directory = record {
  read_dir = λ d. ok entries;
  read_file = λ p.
      if p == "m/001.sql" then ok "create a" else if p == "m/002.sql" then ok "" else ok "create b";
}

-- The third text fails.
abbrev exec : String → List String → Option String × List String
exec sql [] = (none, sql ∷ [])
exec sql (s ∷ ss) = (some "exists", s ∷ ss)

abbrev trim_space : String → String
trim_space s = s

abbrev join : String → String → String
join d name =
    if name == "001.sql" then "m/001.sql" else if name == "002.sql" then "m/002.sql" else "m/b"

run_migrations-Outcome_example :
    (names : List String) × Perm names (migration_names entries)
    × IsAscending names
    × Outcome directory exec trim_space
        (join "m")
        []
        names
        (run_migrations directory exec trim_space join "m" []).0
        (run_migrations directory exec trim_space join "m" []).1
run_migrations-Outcome_example =
    run_migrations-Outcome directory exec trim_space join "m" entries [] refl

-- The blank second file is skipped, the third fails, and the fourth is left.
run_migrations_stops :
    run_migrations directory exec trim_space join "m" []
    ≡ (some (executing_failed "003.sql" "exists"), "create a" ∷ [])
unfolding run_migrations run_files run_file sort_names sql_files
run_migrations_stops = refl

-- A pool that does not answer is closed: the state is the list of the open pools.
abbrev driver : PoolDriver String String (List String)
driver = record {
  parse_config = λ text. ok (record {
    parsed = text;
    max_conns = 4;
    min_conns = 0;
    health_check_period = 0;
    max_conn_lifetime = 0;
    max_conn_idle_time = 0;
  });
  new_with_config = λ cfg open_pools. (ok cfg.parsed, cfg.parsed ∷ open_pools);
  ping = λ pool open_pools. (some "refused", open_pools);
  close = λ pool open_pools. elim open_pools [ [] ↦ [] | p ∷ ps ↦ ps ];
}

new_db_closes : new_db driver "postgres://db" [] ≡ (err (pinging_failed "refused"), [])
unfolding new_db
new_db_closes = refl

close_db_nil : close_db driver (record { pool = none }) ("p" ∷ []) ≡ "p" ∷ []
unfolding close_db
close_db_nil = refl

-- ===== src/Database/Migrations.antt =====
-- In which order the migrations are executed, and how far.
use mathlib.Core.List.{Perm}
use mathlib.Core.List.Perm
use eks_financial_orchestrat.Common.{
  ◌≡◌, refl, subst, String, Bool, true, false, not, ◌&&◌, Option, none, some, List, [], ◌∷◌, ◌++◌,
  map, select, inl, inr, Bool-cases, arith,
}
use eks_financial_orchestrat.Common.Result.{Result, ok, err}
use eks_financial_orchestrat.Common.Text.{ends_with, is_after, is_after-asym}
use eks_financial_orchestrat.Database.{
  DirEntry, Directory, MigrationError, reading_failed, executing_failed, sql_files, insert_name,
  sort_names, is_blank, executed, or_stop, run_content, run_file, run_files, run_migrations,
}

-- The migrations of a directory.
abbrev pub is_migration : DirEntry → Bool
is_migration e = not e.is_dir && ends_with e.name ".sql"

abbrev pub migration_names : List DirEntry → List String
migration_names entries = map (λ e. e.name) (select is_migration entries)

-- No name is after the next.
abbrev pub IsNotAbove : String → List String → Type 0
IsNotAbove a [] = Unit
IsNotAbove a (b ∷ bs) = is_after a b ≡ false

abbrev pub IsAscending : List String → Type 0
IsAscending [] = Unit
IsAscending (a ∷ bs) = IsNotAbove a bs × IsAscending bs

sql_files-eq : (entries : List DirEntry) → sql_files entries ≡ migration_names entries
unfolding sql_files
sql_files-eq [] = refl
sql_files-eq (e ∷ es) = ground (arith, sql_files-eq es)

insert_name-perm : (a : String) (bs : List String) → Perm (insert_name a bs) (a ∷ bs)
insert_name-perm a [] = Perm.refl (a ∷ [])
insert_name-perm a (b ∷ bs) = elim (Bool-cases (is_after a b)) [
  | inl t ↦ rw t (Perm.trans (Perm.cons b (insert_name-perm a bs)) (Perm.swap a b bs))
  | inr f ↦ rw f (Perm.refl (a ∷ b ∷ bs))
]

sort_names-perm : (names : List String) → Perm (sort_names names) names
unfolding sort_names
sort_names-perm [] = Perm.refl []
sort_names-perm (a ∷ names) =
    Perm.trans (insert_name-perm a (sort_names names)) (Perm.cons a (sort_names-perm names))

insert_name-IsNotAbove :
    (b a : String) (bs : List String)
    → is_after b a ≡ false
    → IsNotAbove b bs
    → IsNotAbove b (insert_name a bs)
insert_name-IsNotAbove b a [] low _ = low
insert_name-IsNotAbove b a (c ∷ bs) low above = elim (Bool-cases (is_after a c)) [
  | inl t ↦ rw t above
  | inr f ↦ rw f low
]

insert_name-IsAscending :
    (a : String) (bs : List String) → IsAscending bs → IsAscending (insert_name a bs)
insert_name-IsAscending a [] _ = (tt, tt)
insert_name-IsAscending a (b ∷ bs) (above, rest) = elim (Bool-cases (is_after a b)) [
  | inl t ↦
      rw t (
        insert_name-IsNotAbove b a bs (is_after-asym a b t) above,
        insert_name-IsAscending a bs rest,
      )
  | inr f ↦ rw f (f, (above, rest))
]

sort_names-IsAscending : (names : List String) → IsAscending (sort_names names)
unfolding sort_names
sort_names-IsAscending [] = tt
sort_names-IsAscending (a ∷ names) =
    insert_name-IsAscending a (sort_names names) (sort_names-IsAscending names)

-- What becomes of the state of the database.
module _ {S : Type 0} (dir : Directory) (exec : String → S → Option String × S)
    (trim_space : String → String) (path : String → String) where
  -- Files that are read and, unless they are blank, executed without an error, each once, in order.
  pub data Migrated : S → List String → S → Type 0 where
    finished : (s : S) → Migrated s [] s
    skipped :
        (name sql : String) (names : List String) (s s' : S)
        → dir.read_file (path name) ≡ ok sql
        → is_blank trim_space sql ≡ true
        → Migrated s names s'
        → Migrated s (name ∷ names) s'
    applied :
        (name sql : String) (names : List String) (s s1 s' : S)
        → dir.read_file (path name) ≡ ok sql
        → is_blank trim_space sql ≡ false
        → exec sql s ≡ (none, s1)
        → Migrated s1 names s'
        → Migrated s (name ∷ names) s'

  -- A file that cannot be read, or whose execution fails.
  pub data Failed : S → String → MigrationError → S → Type 0 where
    unread :
        (name e : String) (s : S)
        → dir.read_file (path name) ≡ err e
        → Failed s name (reading_failed name e) s
    refused :
        (name sql e : String) (s s' : S)
        → dir.read_file (path name) ≡ ok sql
        → is_blank trim_space sql ≡ false
        → exec sql s ≡ (some e, s')
        → Failed s name (executing_failed name e) s'

  -- All of the files are done, or those before the first that fails, of which the error tells.
  pub data Outcome : S → List String → Option MigrationError → S → Type 0 where
    completed : (names : List String) (s s' : S) → Migrated s names s' → Outcome s names none s'
    stopped :
        (done rest : List String) (name : String) (e : MigrationError) (s s1 s' : S)
        → Migrated s done s1
        → Failed s1 name e s'
        → Outcome s (done ++ (name ∷ rest)) (some e) s'

  -- What one file brings: it can be put before those that follow, or it fails.
  abbrev Step : S → String → Option MigrationError × S → Type 0
  Step s name (none, s1) =
      (names : List String) (s' : S) → Migrated s1 names s' → Migrated s (name ∷ names) s'
  Step s name (some e, s1) = Failed s name e s1

  executed-Step :
      (name sql : String) (s : S) (r : Option String × S)
      → dir.read_file (path name) ≡ ok sql
      → is_blank trim_space sql ≡ false
      → exec sql s ≡ r
      → Step s name (executed name r)
  executed-Step name sql s (none, s1) read full ran =
      λ names s' m. applied name sql names s s1 s' read full ran m
  executed-Step name sql s (some e, s1) read full ran = refused name sql e s s1 read full ran

  run_content-Step :
      (name : String) (s : S) (content : Result String String)
      → dir.read_file (path name) ≡ content
      → Step s name (run_content exec trim_space name content s)
  run_content-Step name s (err e) read = unread name e s read
  run_content-Step name s (ok sql) read = elim (Bool-cases (is_blank trim_space sql)) [
    | inl t ↦ rw t λ names s' m. skipped name sql names s s' read t m
    | inr f ↦ rw f (executed-Step name sql s (exec sql s) read f refl)
  ]

  before-Outcome :
      (name : String) (names : List String) (e : Option MigrationError) (s s1 s' : S)
      → Step s name (none, s1)
      → Outcome s1 names e s'
      → Outcome s (name ∷ names) e s'
  before-Outcome name names e s s1 s' step (completed _ _ _ m) =
      completed (name ∷ names) s s' (step names s' m)
  before-Outcome name names e s s1 s' step (stopped done rest n e' _ s2 _ m failed) =
      stopped (name ∷ done) rest n e' s s2 s' (step done s2 m) failed

  or_stop-Outcome :
      (name : String) (names : List String) (s : S) (r : Option MigrationError × S)
      (rest : S → Option MigrationError × S)
      → Step s name r
      → ((s' : S) → Outcome s' names (rest s').0 (rest s').1)
      → Outcome s (name ∷ names) (or_stop r rest).0 (or_stop r rest).1
  or_stop-Outcome name names s (some e, s1) rest failed _ =
      stopped [] names name e s s s1 (finished s) failed
  or_stop-Outcome name names s (none, s1) rest step outcome =
      before-Outcome name names (rest s1).0 s s1 (rest s1).1 step (outcome s1)

module _ {S : Type 0} (dir : Directory) (exec : String → S → Option String × S)
    (trim_space : String → String) (join : String → String → String) (migrations_dir : String) where
  run_files-Outcome :
      (names : List String) (s : S)
      → Outcome dir exec trim_space
          (join migrations_dir)
          s
          names
          (run_files dir exec trim_space join migrations_dir names s).0
          (run_files dir exec trim_space join migrations_dir names s).1
  unfolding run_files run_file
  run_files-Outcome [] s = completed [] s s (finished s)
  run_files-Outcome (name ∷ names) s =
      or_stop-Outcome dir exec trim_space (join migrations_dir) name names s
        (run_file dir exec trim_space join migrations_dir name s)
        (λ s'. run_files dir exec trim_space join migrations_dir names s')
        (run_content-Step dir exec trim_space (join migrations_dir) name s
          (dir.read_file (join migrations_dir name)) refl)
        λ s'. run_files-Outcome names s'

  -- When the directory can be read, its migrations, the files with names that end in ".sql", are
  -- executed in ascending order of their names, each at most once and blank ones not at all, either to
  -- the end, without an error, or up to the first that cannot be read or whose execution fails, of
  -- which the error tells and after which none is executed.
  pub run_migrations-Outcome :
      (entries : List DirEntry) (s : S)
      → dir.read_dir migrations_dir ≡ ok entries
      → (names : List String) × Perm names (migration_names entries)
        × IsAscending names
        × Outcome dir exec trim_space
            (join migrations_dir)
            s
            names
            (run_migrations dir exec trim_space join migrations_dir s).0
            (run_migrations dir exec trim_space join migrations_dir s).1
  unfolding run_migrations
  run_migrations-Outcome entries s read = (
    sort_names (sql_files entries),
    subst (λ names. Perm (sort_names (sql_files entries)) names) (sql_files-eq entries)
        (sort_names-perm (sql_files entries)),
    sort_names-IsAscending (sql_files entries),
    rw (run_migrations, read) (run_files-Outcome (sort_names (sql_files entries)) s),
  )

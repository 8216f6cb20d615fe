-- ===== src/Accounting/Migrate.antt =====
-- RunMigrations of internal/accounting/migrate.go. The directory, the text of a file and what a
-- script does to the rest of the database are parameters; a list says which of the coming calls of
-- the database fail. The advisory lock keeps two runs apart and is given back at the end.
pub mod Once
pub mod Again
pub mod Listing
pub mod Applied
use qbitx_pool.Base.{
  if◌then◌else◌, Bool, true, false, not, ◌&&◌, Option, none, some, List, [], ◌∷◌, ◌++◌, map,
  reverse, Text, codes, text_eq, text_lt,
}
use qbitx_pool.Base.Results.{Result, ok, err}
use qbitx_pool.Accounting.Database.{select, order_by}
use qbitx_pool.Accounting.Session.{fails, later}
use qbitx_pool.Stratum.{lower, has_prefix}

pub data MigrateError : Type 0 where
  empty_url empty_dir connect_failed acquire_failed lock_failed ensure_failed read_dir_failed :
      MigrateError
  check_failed read_failed begin_failed apply_failed record_failed commit_failed :
      Text → MigrateError

-- An entry of the directory.
pub record Entry : Type 0 where
  pub name : Text
  pub is_dir : Bool

-- The table schema_migrations, the rest of the database, and the calls that fail.
pub record Schema (D : Type 0) : Type 0 where
  pub versions : List Text
  pub contents : D
  pub faults : List Bool

-- What a run finds: the directory, its files, and the effect of a script.
pub record Source (D : Type 0) : Type 0 where
  pub entries : Option (List Entry)
  pub read : Text → Option Text
  pub exec : Text → D → Option D

abbrev pub ends_with_sql : Text → Bool
unfolding has_prefix
ends_with_sql name = has_prefix (reverse (codes ".sql")) (reverse (map lower name))

abbrev pub is_migration : Entry → Bool
is_migration e = not e.is_dir && ends_with_sql e.name

-- listMigrationFiles
unfoldable pub list_migration_files : List Entry → List Text
unfolding select order_by text_lt has_prefix
list_migration_files entries =
    order_by (λ a b. not (text_lt b a)) (map (λ e. e.name) (select is_migration entries))

unfoldable pub is_version : Text → List Text → Bool
is_version name [] = false
is_version name (v ∷ vs) = if text_eq v name then true else is_version name vs

abbrev pub Run : Type 0 → Type 0
Run D = Result MigrateError (Unit {0}) × Schema D

module _ {D : Type 0} where
  abbrev pub called : Schema D → Schema D
  called w = record w { faults = later w.faults }

  -- A call of the database, and what follows it.
  abbrev pub attempt : MigrateError → Schema D → (Schema D → Run D) → Run D
  attempt e w k = if fails w.faults then (err e, called w) else k (called w)

  -- The transaction: what it writes is there only after the commit.
  abbrev pub commit_version : Text → Option D → Schema D → (Schema D → Run D) → Run D
  commit_version name none w k = (err (apply_failed name), w)
  commit_version name (some changed) w k = attempt (record_failed name) w (λ w1.
      attempt (commit_failed name) w1
        (λ w2. k (record w2 { versions = w2.versions ++ name ∷ []; contents = changed })))

  abbrev pub apply_file : Source D → Text → Option Text → Schema D → (Schema D → Run D) → Run D
  apply_file source name none w k = (err (read_failed name), w)
  apply_file source name (some sql) w k = attempt (begin_failed name) w (λ w1.
      attempt (apply_failed name) w1 (λ w2. commit_version name (source.exec sql w2.contents) w2 k))

  -- The loop over the files.
  unfoldable pub apply_files : Source D → List Text → Schema D → Run D
  unfolding is_version
  apply_files source [] w = (ok tt, w)
  apply_files source (name ∷ names) w = attempt (check_failed name) w (λ w1.
      let rest = apply_files source names in
      if is_version name w1.versions
      then rest w1
      else apply_file source name (source.read name) w1 rest)

  abbrev pub apply_listed : Source D → Option (List Entry) → Schema D → Run D
  unfolding list_migration_files apply_files
  apply_listed source none w = (err read_dir_failed, w)
  apply_listed source (some entries) w = apply_files source (list_migration_files entries) w

  unfoldable pub run_migrations : Text → Text → Source D → Schema D → Run D
  unfolding list_migration_files apply_files
  run_migrations url dir source w =
      if text_eq url []
      then (err empty_url, w)
      else if text_eq dir []
      then (err empty_dir, w)
      else attempt connect_failed w (λ w1. attempt acquire_failed w1 (λ w2.
        attempt lock_failed w2
          (λ w3. attempt ensure_failed w3 (λ w4. apply_listed source source.entries w4))))

-- ===== src/Accounting/Migrate/Applied.antt =====
-- What a run of RunMigrations applies, against a description of the files that are left to do.
use qbitx_pool.Base.{
  ◌≡◌, refl, ◌⊎◌, inl, inr, true, Bool-cases, Option, Option-cases, none, some, List, [], ◌∷◌, ◌++◌,
  Text, text_eq, text_eq→eq, eq→text_eq, arith,
}
use qbitx_pool.Base.Results.{err}
use qbitx_pool.Accounting.Migrate.{
  MigrateError, Entry, Schema, Source, is_version, Run, run_migrations,
}
use qbitx_pool.Accounting.Migrate.Listing.{Listed, list_migration_files-Listed}
use qbitx_pool.Accounting.Migrate.Once.{
  pending, replay, IsPrefix, names_of, run_migrations-Ran, run_migrations_unread,
}

-- The table has a row of the file.
abbrev pub HasRow : Text → List Text → Type 0
HasRow name [] = ⊥
HasRow name (v ∷ vs) = (v ≡ name) ⊎ HasRow name vs

-- Of some files, those that have no row yet, in their order.
pub data ToDo : List Text → List Text → List Text → Type 0 where
  all_done : (versions : List Text) → ToDo versions [] []
  old :
      (versions names left : List Text) (name : Text)
      → HasRow name versions
      → ToDo versions names left
      → ToDo versions (name ∷ names) left
  new :
      (versions names left : List Text) (name : Text)
      → ¬ HasRow name versions
      → ToDo (versions ++ name ∷ []) names left
      → ToDo versions (name ∷ names) (name ∷ left)

-- The files of a directory, which are none where it cannot be read.
abbrev pub Files : Option (List Entry) → List Text → Type 0
Files none files = files ≡ []
Files (some entries) files = Listed entries files

-- A run from a database with `versions` and `contents`.
pub record Migrated {D : Type 0} (source : Source D) (versions : List Text) (contents : D)
    (r : Run D) : Type 0 where
  pub files : List Text
  pub left : List Text
  pub listing : Files source.entries files
  pub to_do : ToDo versions files left
  pub applied : List Text
  pub recorded : r.1.versions ≡ versions ++ applied
  pub replayed : replay source applied contents ≡ some r.1.contents
  pub in_order : IsPrefix applied left
  pub ending :
      ((e : MigrateError) × (r.0 ≡ err e))
      ⊎ (((entries : List Entry) × (source.entries ≡ some entries)) × (applied ≡ left))

is_version-HasRow : (name : Text) (vs : List Text) → is_version name vs ≡ true → HasRow name vs
unfolding is_version
is_version-HasRow name [] h = ground (arith, h)
is_version-HasRow name (v ∷ vs) h = elim (Bool-cases (text_eq v name)) [
  | inl this ↦ inl (text_eq→eq v name this)
  | inr other ↦ inr (is_version-HasRow name vs (rw other at h))
]

HasRow-is_version : (name : Text) (vs : List Text) → HasRow name vs → is_version name vs ≡ true
unfolding is_version
HasRow-is_version name [] h = absurd h
HasRow-is_version name (v ∷ vs) (inl e) = rw (eq→text_eq v name e) refl
HasRow-is_version name (v ∷ vs) (inr h) = elim (Bool-cases (text_eq v name)) [
  | inl this ↦ rw this refl
  | inr other ↦ rw other (HasRow-is_version name vs h)
]

pending-ToDo : (versions names : List Text) → ToDo versions names (pending versions names)
unfolding pending
pending-ToDo versions [] = all_done versions
pending-ToDo versions (name ∷ names) = elim (Bool-cases (is_version name versions)) [
  | inl row ↦ rw row (
      old versions names _ name (is_version-HasRow name versions row) (pending-ToDo versions names))
  | inr none' ↦ rw none' (
      new versions names _ name (λ h. ground (arith, none', HasRow-is_version name versions h))
        (pending-ToDo (versions ++ name ∷ []) names))
]

module _ {D : Type 0} (source : Source D) where
  names_of-Files : (o : Option (List Entry)) → Files o (names_of source o)
  unfolding names_of
  names_of-Files none = refl
  names_of-Files (some entries) = list_migration_files-Listed entries

  -- A run of RunMigrations, wherever it fails, applies files of the directory that have no row in
  -- schema_migrations yet, from the first of them on, where the files are the entries that are no
  -- directory and end in `.sql` in any case, in the ascending order of their names: each file that is
  -- applied gets its row together with the effect of its script, no other row or effect is added, and
  -- none of the files is left, or the run ends with an error.
  pub run_migrations_lem :
      (url dir : Text) (w : Schema D)
      → Migrated source w.versions w.contents (run_migrations url dir source w)
  run_migrations_lem url dir w =
      let r = run_migrations-Ran source url dir w in
      let files = names_of source source.entries in
      record {
        files = files;
        left = pending w.versions files;
        listing = names_of-Files source.entries;
        to_do = pending-ToDo w.versions files;
        applied = r.applied;
        recorded = r.recorded;
        replayed = r.replayed;
        in_order = r.in_order;
        ending = elim (Option-cases source.entries) [
          | inl unread ↦ inl (run_migrations_unread source url dir w unread)
          | inr read ↦ elim r.ending [ inl bad ↦ inl bad | inr all ↦ inr (read, all) ]
        ];
      }

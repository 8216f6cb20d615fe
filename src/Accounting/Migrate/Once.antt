-- ===== src/Accounting/Migrate/Once.antt =====
-- Each migration is applied once, in the order of the names.
use qbitx_pool.Base.{
  ◌≡◌, refl, ap, sym, ◌∙◌, ◌⊎◌, inl, inr, Bool, true, false, Bool-cases, if◌then◌else◌, Option,
  none, some, List, [], ◌∷◌, ◌++◌, Text, text_eq,
}
use mathlib.Core.List.{append-nil, append_assoc}
use qbitx_pool.Base.Results.{err}
use qbitx_pool.Accounting.Session.{fails}
use qbitx_pool.Accounting.Migrate.{
  check_failed, read_failed, begin_failed, apply_failed, record_failed, commit_failed, empty_url,
  empty_dir, connect_failed, acquire_failed, lock_failed, ensure_failed, read_dir_failed,
  MigrateError, Schema, Source, Entry, list_migration_files, is_version, Run, called, attempt,
  commit_version, apply_file, apply_files, apply_listed, run_migrations,
}

-- The files that are still to be applied, in their order.
unfoldable pub pending : List Text → List Text → List Text
pending versions [] = []
pending versions (name ∷ names) =
    if is_version name versions
    then pending versions names
    else name ∷ pending (versions ++ name ∷ []) names

-- The contents after the script of a file, and after those of some files, one after the other.
abbrev pub script : {D : Type 0} → Source D → Option Text → D → Option D
script source none d = none
script source (some sql) d = source.exec sql d

abbrev pub and_then : {D : Type 0} → Option D → (D → Option D) → Option D
and_then none f = none
and_then (some d) f = f d

unfoldable pub replay : {D : Type 0} → Source D → List Text → D → Option D
replay source [] d = some d
replay source (name ∷ names) d = and_then (script source (source.read name) d) (replay source names)

abbrev pub IsPrefix : List Text → List Text → Type 0
IsPrefix [] ts = Unit
IsPrefix (s ∷ ss) [] = ⊥
IsPrefix (s ∷ ss) (t ∷ ts) = (s ≡ t) × IsPrefix ss ts

-- A run from a database with `versions` and `contents`: what it applied are the first of the files
-- that were to be applied, all of them where it succeeded, and the database is what their scripts
-- make of it.
pub record Ran {D : Type 0} (source : Source D) (names versions : List Text) (contents : D)
    (r : Run D) : Type 0 where
  pub applied : List Text
  pub recorded : r.1.versions ≡ versions ++ applied
  pub replayed : replay source applied contents ≡ some r.1.contents
  pub in_order : IsPrefix applied (pending versions names)
  pub ending : ((e : MigrateError) × (r.0 ≡ err e)) ⊎ (applied ≡ pending versions names)

module _ {D : Type 0} (source : Source D) where
  if_cases : (P : Run D → Type 0) (b : Bool) {x y : Run D} → P x → P y → P (if b then x else y)
  if_cases P true h k = h
  if_cases P false h k = k

  attempt_cases :
      (P : Run D → Type 0) (e : MigrateError) (w : Schema D) (k : Schema D → Run D)
      → P (err e, called w)
      → P (k (called w))
      → P (attempt e w k)
  attempt_cases P e w k a b = elim (Bool-cases (fails w.faults)) [
    | inl down ↦ rw down a
    | inr up ↦ rw up b
  ]

  -- A run that fails at once.
  stopped :
      (e : MigrateError) (names : List Text) (w : Schema D)
      → Ran source names w.versions w.contents (err e, w)
  unfolding replay
  stopped e names w = record {
    applied = [];
    recorded = sym (append-nil w.versions);
    replayed = refl;
    in_order = tt;
    ending = inl (e, refl);
  }

  -- A file is applied, and the run goes on.
  one_more :
      (name sql : Text) (names versions : List Text) (contents changed : D) (r : Run D)
      → is_version name versions ≡ false
      → source.read name ≡ some sql
      → source.exec sql contents ≡ some changed
      → Ran source names (versions ++ name ∷ []) changed r
      → Ran source (name ∷ names) versions contents r
  unfolding pending replay
  one_more name sql names versions contents changed r new text done h = record {
    applied = name ∷ h.applied;
    recorded = h.recorded ∙ append_assoc versions (name ∷ []) h.applied;
    replayed =
        ap (λ o. and_then (script source o contents) (replay source h.applied)) text
        ∙ ap (λ o. and_then o (replay source h.applied)) done
        ∙ h.replayed;
    in_order = rw new (refl, h.in_order);
    ending = elim h.ending [ inl e ↦ inl e | inr all ↦ inr (rw new (ap (λ l. name ∷ l) all)) ];
  }

  skipped :
      (name : Text) (names versions : List Text) (contents : D) (r : Run D)
      → is_version name versions ≡ true
      → Ran source names versions contents r
      → Ran source (name ∷ names) versions contents r
  unfolding pending
  skipped name names versions contents r old h = record {
    applied = h.applied;
    recorded = h.recorded;
    replayed = h.replayed;
    in_order = rw old h.in_order;
    ending = rw old h.ending;
  }

  commit_lem :
      (name sql : Text) (names : List Text) (w : Schema D) (k : Schema D → Run D)
      → is_version name w.versions ≡ false
      → source.read name ≡ some sql
      → ((w' : Schema D) → Ran source names w'.versions w'.contents (k w'))
      → (o : Option D) → source.exec sql w.contents ≡ o
      → Ran source (name ∷ names) w.versions w.contents (commit_version name o w k)
  commit_lem name sql names w k new text rest none e = stopped (apply_failed name) (name ∷ names) w
  commit_lem name sql names w k new text rest (some changed) e =
      let k2 = λ (w2 : Schema D).
        k (record w2 { versions = w2.versions ++ name ∷ []; contents = changed }) in
      let k1 = λ (w1 : Schema D). attempt (commit_failed name) w1 k2 in
      let P = Ran source (name ∷ names) w.versions w.contents in
      attempt_cases P (record_failed name) w k1
        (stopped (record_failed name) (name ∷ names) (called w))
        (attempt_cases P (commit_failed name) (called w) k2
          (stopped (commit_failed name) (name ∷ names) (called (called w)))
          (one_more name sql names w.versions w.contents changed (k2 (called (called w))) new text e
            (rest (record (called (called w)) {
              versions = w.versions ++ name ∷ [];
              contents = changed;
            }))))

  file_lem :
      (name : Text) (names : List Text) (w : Schema D) (k : Schema D → Run D)
      → is_version name w.versions ≡ false
      → ((w' : Schema D) → Ran source names w'.versions w'.contents (k w'))
      → (o : Option Text) → source.read name ≡ o
      → Ran source (name ∷ names) w.versions w.contents (apply_file source name o w k)
  file_lem name names w k new rest none e = stopped (read_failed name) (name ∷ names) w
  file_lem name names w k new rest (some sql) e =
      let k2 = λ (w2 : Schema D). commit_version name (source.exec sql w2.contents) w2 k in
      let k1 = λ (w1 : Schema D). attempt (apply_failed name) w1 k2 in
      let P = Ran source (name ∷ names) w.versions w.contents in
      attempt_cases P (begin_failed name) w k1
        (stopped (begin_failed name) (name ∷ names) (called w))
        (attempt_cases P (apply_failed name) (called w) k2
          (stopped (apply_failed name) (name ∷ names) (called (called w)))
          (commit_lem name sql names (called (called w)) k new e rest (source.exec sql w.contents)
            refl))

  apply_files_lem :
      (names : List Text) (w : Schema D)
      → Ran source names w.versions w.contents (apply_files source names w)
  unfolding apply_files replay pending
  apply_files_lem [] w = record {
    applied = [];
    recorded = sym (append-nil w.versions);
    replayed = refl;
    in_order = tt;
    ending = inr refl;
  }
  apply_files_lem (name ∷ names) w =
      attempt_cases (Ran source (name ∷ names) w.versions w.contents) (check_failed name) w
        (λ w1.
          let rest = apply_files source names in
          if is_version name w1.versions
          then rest w1
          else apply_file source name (source.read name) w1 rest)
        (stopped (check_failed name) (name ∷ names) (called w))
        (checked (λ w'. apply_files_lem names w') (is_version name w.versions) refl)
    where
      checked :
          ((w' : Schema D) → Ran source names w'.versions w'.contents (apply_files source names w'))
          → (b : Bool) → is_version name w.versions ≡ b
          → Ran source (name ∷ names) w.versions w.contents (
              if b
              then apply_files source names (called w)
              else apply_file source name (source.read name) (called w) (apply_files source names))
      checked ih true old =
          skipped name names w.versions w.contents (apply_files source names (called w)) old
            (ih (called w))
      checked ih false new =
          file_lem name names (called w) (apply_files source names) new ih (source.read name) refl

  -- The files of the directory, which are none where it cannot be read.
  unfoldable pub names_of : Option (List Entry) → List Text
  unfolding list_migration_files
  names_of none = []
  names_of (some entries) = list_migration_files entries

  listed_lem :
      (entries : Option (List Entry)) (w : Schema D)
      → Ran source (names_of entries) w.versions w.contents (apply_listed source entries w)
  unfolding names_of apply_listed list_migration_files apply_files
  listed_lem none w = stopped read_dir_failed [] w
  listed_lem (some entries) w = apply_files_lem (list_migration_files entries) w

  -- A run fails before it reads the directory, or goes on to its files; the tables stay till then.
  pub run_cases :
      (P : Run D → Type 0) (url dir : Text) (w : Schema D)
      → ((e : MigrateError) (f : List Bool) → P (err e, record w { faults = f }))
      → ((f : List Bool) → P (apply_listed source source.entries (record w { faults = f })))
      → P (run_migrations url dir source w)
  unfolding run_migrations
  run_cases P url dir w stop go =
      let k4 = λ (w4 : Schema D). apply_listed source source.entries w4 in
      let k3 = λ (w3 : Schema D). attempt ensure_failed w3 k4 in
      let k2 = λ (w2 : Schema D). attempt lock_failed w2 k3 in
      let k1 = λ (w1 : Schema D). attempt acquire_failed w1 k2 in
      let w2 = called (called w) in
      let w3 = called w2 in
      if_cases P (text_eq url []) (stop empty_url w.faults) (
        if_cases P (text_eq dir []) (stop empty_dir w.faults) (
          attempt_cases P connect_failed w k1 (stop connect_failed _) (
            attempt_cases P acquire_failed (called w) k2 (stop acquire_failed _) (
              attempt_cases P lock_failed w2 k3 (stop lock_failed _)
                (attempt_cases P ensure_failed w3 k4 (stop ensure_failed _) (go _))))))

  pub run_migrations-Ran :
      (url dir : Text) (w : Schema D)
      → Ran source (names_of source.entries) w.versions w.contents (run_migrations url dir source w)
  run_migrations-Ran url dir w =
      run_cases (Ran source (names_of source.entries) w.versions w.contents) url dir w
        (λ e f. stopped e (names_of source.entries) (record w { faults = f }))
        (λ f. listed_lem source.entries (record w { faults = f }))

  -- Without the directory a run fails.
  pub run_migrations_unread :
      (url dir : Text) (w : Schema D)
      → source.entries ≡ none
      → (e : MigrateError) × ((run_migrations url dir source w).0 ≡ err e)
  unfolding list_migration_files apply_files
  run_migrations_unread url dir w h =
      run_cases (λ r. (e : MigrateError) × (r.0 ≡ err e)) url dir w (λ e f. (e, refl))
        (λ f. rw h (read_dir_failed, refl))

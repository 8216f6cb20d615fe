-- ===== src/Accounting/Migrate/Again.antt =====
-- A migration that has been applied is not applied again.
use qbitx_pool.Base.{
  ◌≡◌, refl, ap, sym, ◌∙◌, ◌⊎◌, inl, inr, Bool, true, false, Bool-cases, if◌then◌else◌, List, [],
  ◌∷◌, ◌++◌, Text, text_eq, text_eq_refl, arith,
}
use mathlib.Core.Path.{subst}
use mathlib.Core.Option.{some-injective}
use mathlib.Core.List.{append-nil, append_assoc}
use qbitx_pool.Base.Results.{Result, ok, err, ok-err}
use qbitx_pool.Accounting.Migrate.{MigrateError, Schema, Source, is_version, run_migrations}
use qbitx_pool.Accounting.Migrate.Once.{pending, replay, IsPrefix, names_of, run_migrations-Ran}

is_version-append :
    (name : Text) (vs more : List Text)
    → is_version name vs ≡ true
    → is_version name (vs ++ more) ≡ true
unfolding is_version
is_version-append name [] more h = ground (arith, h)
is_version-append name (v ∷ vs) more h = elim (Bool-cases (text_eq v name)) [
  | inl this ↦ rw this refl
  | inr other ↦ rw other (is_version-append name vs more (rest (text_eq v name) other h))
]
  where
    rest : (b : Bool) {x : Bool} → b ≡ false → (if b then true else x) ≡ true → x ≡ true
    rest false e h = h
    rest true e h = ground (arith, e)

is_version_last : (name : Text) (vs : List Text) → is_version name (vs ++ name ∷ []) ≡ true
unfolding is_version
is_version_last name [] = rw (text_eq_refl name) refl
is_version_last name (v ∷ vs) = elim (Bool-cases (text_eq v name)) [
  | inl this ↦ rw this refl
  | inr other ↦ rw other (is_version_last name vs)
]

-- Behind what was pending, nothing is.
pending_done : (names vs : List Text) → pending (vs ++ pending vs names) names ≡ []
unfolding pending
pending_done [] vs = refl
pending_done (name ∷ names) vs = elim (Bool-cases (is_version name vs)) [
  | inl old ↦ rw (old, is_version-append name vs (pending vs names) old) (pending_done names vs)
  | inr new ↦
      rw
        (
          new,
          sym (append_assoc vs (name ∷ []) (pending (vs ++ name ∷ []) names)),
          is_version-append name (vs ++ name ∷ []) (pending (vs ++ name ∷ []) names)
              (is_version_last name vs),
        )
        (pending_done names (vs ++ name ∷ []))
]

prefix_of_none : (ss : List Text) → IsPrefix ss [] → ss ≡ []
prefix_of_none [] h = refl
prefix_of_none (s ∷ ss) h = absurd h

all_done :
    {r : Result MigrateError (Unit {0})} {P : Type 0}
    → ((e : MigrateError) × (r ≡ err e)) ⊎ P
    → r ≡ ok tt
    → P
all_done (inr p) good = p
all_done (inl (e, bad)) good = absurd (ok-err (sym good ∙ bad))

-- After a run that succeeded, another run with the same directory applies nothing, wherever it
-- fails.
pub run_migrations_again :
    {D : Type 0} (source : Source D) (url dir : Text) (w : Schema D)
    → (run_migrations url dir source w).0 ≡ ok tt
    → (let first = run_migrations url dir source w in
        let second = run_migrations url dir source first.1 in
        (second.1.versions ≡ first.1.versions) × (second.1.contents ≡ first.1.contents))
unfolding replay
run_migrations_again source url dir w good =
    let first = run_migrations url dir source w in
    let a = run_migrations-Ran source url dir w in
    let b = run_migrations-Ran source url dir first.1 in
    let names = names_of source source.entries in
    let done : first.1.versions ≡ w.versions ++ pending w.versions names =
      a.recorded ∙ ap (λ l. w.versions ++ l) (all_done a.ending good) in
    let nothing : b.applied ≡ [] = prefix_of_none b.applied (
      subst (IsPrefix b.applied) (ap (λ v. pending v names) done ∙ pending_done names w.versions)
        b.in_order) in
    (
      b.recorded ∙ ap (λ l. first.1.versions ++ l) nothing ∙ append-nil first.1.versions,
      sym (
          some-injective _ _
            (ap (λ l. replay source l first.1.contents) (sym nothing) ∙ b.replayed)),
    )

-- ===== src/Accounting/Session/Rules.antt =====
-- Rules for programs on the database of Accounting/Session: what holds after a statement, by
-- whether it succeeds, for any choice of the statements that fail.
use qbitx_pool.Base.{
  ◌≡◌, refl, ◌&&◌, not, Bool, true, false, Bool-cases, inl, inr, Option, none, some,
}
use qbitx_pool.Base.Results.{Result, ok, err}
use qbitx_pool.Accounting.Database.{Database}
use qbitx_pool.Accounting.Session.{
  Stage, Error, World, M, ◌>>=◌, reach, fails, later, begin, commit, tx_exec, tx_query, query,
  tx_open, conn_busy, exec, write_db, write_work,
}

-- `Q` holds of the value and the world of a success, `E` of the world of a failure.
abbrev pub Holds :
    {A : Type 0} → (A → World → Type 0) → (World → Type 0) → Result Error A × World → Type 0
Holds Q E (ok a, w) = Q a w
Holds Q E (err e, w) = E w

pub record Post {A : Type 0} (Q : A → World → Type 0) (E : World → Type 0)
    (r : Result Error A × World) : Type 0 where
  pub holds : Holds Q E r

bind-Holds :
    {A B : Type 0} (Q' : A → World → Type 0) (E : World → Type 0) (Q : B → World → Type 0)
    (f : A → M B) (r : Result Error A × World)
    → Holds Q' E r
    → ((a : A) (w' : World) → Q' a w' → Holds Q E (f a w'))
    → Holds Q E (let (x, w') = r in elim x [ ok a ↦ f a w' | err e ↦ (err e, w') ])
bind-Holds Q' E Q f (ok a, w') q k = k a w' q
bind-Holds Q' E Q f (err e, w') q k = q

pub Post-bind :
    {A B : Type 0} {Q' : A → World → Type 0} {E : World → Type 0} {Q : B → World → Type 0} (m : M A)
    (f : A → M B) (w : World)
    → Post Q' E (m w)
    → ((a : A) (w' : World) → Q' a w' → Post Q E (f a w'))
    → Post Q E ((m >>= f) w)
Post-bind {Q' = Q'} {E = E} {Q = Q} m f w h k = record {
  holds = bind-Holds Q' E Q f (m w) h.holds (λ a w' q. (k a w' q).holds);
}

weaken-Holds :
    {A : Type 0} (Q' : A → World → Type 0) (E' : World → Type 0) (Q : A → World → Type 0)
    (E : World → Type 0) (r : Result Error A × World)
    → Holds Q' E' r
    → ((a : A) (w' : World) → Q' a w' → Q a w')
    → ((w' : World) → E' w' → E w')
    → Holds Q E r
weaken-Holds Q' E' Q E (ok a, w) h q e = q a w h
weaken-Holds Q' E' Q E (err x, w) h q e = e w h

pub Post-weaken_both :
    {A : Type 0} {Q' : A → World → Type 0} {E' : World → Type 0} {Q : A → World → Type 0}
    {E : World → Type 0} {r : Result Error A × World}
    → Post Q' E' r
    → ((a : A) (w' : World) → Q' a w' → Q a w')
    → ((w' : World) → E' w' → E w')
    → Post Q E r
Post-weaken_both {Q' = Q'} {E' = E'} {Q = Q} {E = E} {r = r} h q e = record {
  holds = weaken-Holds Q' E' Q E r h.holds q e;
}

pub Post-weaken :
    {A : Type 0} {Q' : A → World → Type 0} {Q : A → World → Type 0} {E : World → Type 0}
    {r : Result Error A × World}
    → Post Q' E r
    → ((a : A) (w' : World) → Q' a w' → Q a w')
    → Post Q E r
Post-weaken h q = Post-weaken_both h q (λ w x. x)

reach-Holds :
    {A : Type 0} (Q : A → World → Type 0) (E : World → Type 0) (stage : Stage) (m : M A) (w : World)
    → Holds Q E (m (record w { faults = later w.faults }))
    → E (record w { faults = later w.faults })
    → Holds Q E (reach stage m w)
reach-Holds Q E stage m w h e = elim (Bool-cases (fails w.faults)) [
  | inl down ↦ rw down e
  | inr up ↦ rw up h
]

-- What is committed does not change.
abbrev pub Keeps : World → World → Type 0
Keeps w w' = w'.db ≡ w.db

pub begin_lem :
    (stage : Stage) (w : World)
    → Post (λ u w'. (w'.work ≡ w.db) × (w'.db ≡ w.db)) (Keeps w) (begin stage w)
begin_lem stage w = record {
  holds =
      reach-Holds (λ u w'. (w'.work ≡ w.db) × (w'.db ≡ w.db)) (Keeps w) stage
        (λ w. (ok tt, record w { work = w.db; rows_open = false })) w (refl, refl) refl;
}

pub commit_lem :
    (stage : Stage) (w : World) → Post (λ u w'. w'.db ≡ w.work) (Keeps w) (commit stage w)
commit_lem stage w = record {
  holds =
      reach-Holds (λ u w'. w'.db ≡ w.work) (Keeps w) stage (λ w. (ok tt, record w { db = w.work }))
        w refl refl;
}

pub tx_query_lem :
    {A : Type 0} (stage : Stage) (g : Database → A) (w : World)
    → Post
        (λ a w'. (a ≡ g w.work) × (w'.work ≡ w.work) × (w'.db ≡ w.db))
        (Keeps w)
        (tx_query stage g w)
tx_query_lem stage g w = record {
  holds =
      reach-Holds (λ a w'. (a ≡ g w.work) × (w'.work ≡ w.work) × (w'.db ≡ w.db)) (Keeps w) stage
        (λ w. (ok (g w.work), w)) w (refl, refl, refl) refl;
}

-- The uncommitted work after a write.
abbrev Wrote : Option Database → World → World → Type 0
Wrote o w w' = (o ≡ some w'.work) × (w'.db ≡ w.db)

write-Holds :
    (stage : Stage) (o : Option Database) (w w' : World)
    → w'.db ≡ w.db
    → Holds (λ u w''. Wrote o w w'') (Keeps w) (write_work stage o w')
write-Holds stage none w w' h = h
write-Holds stage (some d) w w' h = (refl, h)

write_db-Holds :
    (stage : Stage) (o : Option Database) (w : World)
    → Holds (λ u w'. o ≡ some w'.db) (Keeps w) (write_db stage o w)
write_db-Holds stage none w = refl
write_db-Holds stage (some d) w = refl

pub tx_exec_lem :
    (pipelined : Bool) (stage : Stage) (f : Database → Option Database) (w : World)
    → Post
        (λ u w'. (f w.work ≡ some w'.work) × (w'.db ≡ w.db))
        (Keeps w)
        (tx_exec pipelined stage f w)
tx_exec_lem pipelined stage f w = record {
  holds = elim (Bool-cases (w.rows_open && not pipelined)) [
    | inl busy ↦ rw busy refl
    | inr free ↦ rw free (
        reach-Holds (λ u w'. Wrote (f w.work) w w') (Keeps w) stage
          (λ w'. write_work stage (f w'.work) w') w
          (write-Holds stage (f w.work) w (record w { faults = later w.faults }) refl) refl)
  ];
}

pub tx_open_lem :
    {A : Type 0} (stage : Stage) (g : Database → A) (w : World)
    → Post
        (λ a w'. (a ≡ g w.work) × (w'.work ≡ w.work) × (w'.db ≡ w.db) × (w'.rows_open ≡ true))
        (Keeps w)
        (tx_open stage g w)
tx_open_lem stage g w = record {
  holds =
      reach-Holds
        (λ a w'. (a ≡ g w.work) × (w'.work ≡ w.work) × (w'.db ≡ w.db) × (w'.rows_open ≡ true))
        (Keeps w) stage (λ w. (ok (g w.work), record w { rows_open = true })) w
        (refl, refl, refl, refl) refl;
}

-- A driver that does not pipeline refuses every statement while rows are open.
pub tx_exec_busy :
    (pipelined : Bool) (stage : Stage) (f : Database → Option Database) (w : World)
    → pipelined ≡ false
    → w.rows_open ≡ true
    → tx_exec pipelined stage f w ≡ (err (conn_busy stage), w)
tx_exec_busy pipelined stage f w p o = rw (p, o) refl

pub exec_lem :
    (stage : Stage) (f : Database → Option Database) (w : World)
    → Post (λ u w'. f w.db ≡ some w'.db) (Keeps w) (exec stage f w)
exec_lem stage f w = record {
  holds =
      reach-Holds (λ u w'. f w.db ≡ some w'.db) (Keeps w) stage (λ w'. write_db stage (f w'.db) w')
        w (write_db-Holds stage (f w.db) (record w { faults = later w.faults })) refl;
}

pub query_lem :
    {A : Type 0} (stage : Stage) (g : Database → A) (w : World)
    → Post (λ a w'. (a ≡ g w.db) × (w'.db ≡ w.db)) (Keeps w) (query stage g w)
query_lem stage g w = record {
  holds =
      reach-Holds (λ a w'. (a ≡ g w.db) × (w'.db ≡ w.db)) (Keeps w) stage (λ w. (ok (g w.db), w)) w
        (refl, refl) refl;
}

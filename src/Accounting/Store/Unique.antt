-- ===== src/Accounting/Store/Unique.antt =====
-- What InsertAcceptedShare does to the table `shares`.
use qbitx_pool.Base.{
  text_eq→eq, codes, ◌+◌, ◌≡◌, refl, ◌⊎◌, inl, inr, Bool, true, false, Bool-cases, ◌&&◌,
  if◌then◌else◌, Option, none, some, List, [], ◌∷◌, ◌++◌, All, All-append, Text, text_eq, arith,
}
use qbitx_pool.Float64.{le, zero_f}
use qbitx_pool.Accounting.Database.{Share, exists}
use qbitx_pool.Accounting.Store.{
  ShareRecord, StoreError, invalid_share_type, invalid_diff, rejected_insert, violates_unique,
  Postgres, type_of, clashes, row_of, insert_row, wrap_insert, insert_typed, violates_check,
  unavailable, insert_accepted_share,
}

-- No two rows violate a unique index; `earlier` stands before `later`.
abbrev pub Apart : Share → Share → Type 0
Apart later earlier = clashes later earlier ≡ false

abbrev pub Unique : List Share → Type 0
Unique [] = Unit
Unique (s ∷ ss) = All (λ later. Apart later s) ss × Unique ss

exists-All : (p : Share → Bool) (ss : List Share) → exists p ss ≡ false → All (λ s. p s ≡ false) ss
unfolding exists
exists-All p [] h = tt
exists-All p (s ∷ ss) h = (ground (arith, h), exists-All p ss (ground (arith, h)))

Unique-append :
    (new : Share) (ss : List Share)
    → Unique ss
    → All (λ s. Apart new s) ss
    → Unique (ss ++ new ∷ [])
Unique-append new [] u h = (tt, tt)
Unique-append new (s ∷ ss) u h =
    (All-append _ ss (new ∷ []) u.0 (h.0, tt), Unique-append new ss u.1 h.1)

type_of_lem :
    (t : Text) (b : Bool) → type_of t ≡ some b → t ≡ (if b then codes "block" else codes "share")
type_of_lem t b h = decided _ _ b refl refl h
  where
    decided :
        (p q b : Bool)
        → text_eq t (codes "share") ≡ p
        → text_eq t (codes "block") ≡ q
        → (if p then some false else if q then some true else none) ≡ some b
        → t ≡ (if b then codes "block" else codes "share")
    decided true q true e f h = cc
    decided true q false e f h = text_eq→eq t (codes "share") e
    decided false true true e f h = text_eq→eq t (codes "block") f
    decided false true false e f h = cc
    decided false false b e f h = cc

-- The row is added, or the table stays as it is and there is an error.
abbrev pub Inserted : ShareRecord → Postgres → Postgres × Option StoreError → Type 0
Inserted r s o =
    Unique o.0.shares
    × (((is_block : Bool) × (r.share_type ≡ (if is_block then codes "block" else codes "share"))
          × (le r.diff zero_f ≡ false)
          × (o.1 ≡ none)
          × (o.0.shares ≡ s.shares ++ row_of s.next_share s.pool_id is_block r ∷ []))
        ⊎ ((e : StoreError) × (o.1 ≡ some e) × (o.0.shares ≡ s.shares)))

-- What the insertion comes to, by its tests.
abbrev insert_tests :
    ShareRecord → Postgres → Bool → Bool → Bool → Bool → Postgres × Option StoreError
insert_tests r s b low answers clash =
    let counted = record s { next_share = s.next_share + 1 } in
    if low
    then (s, some (invalid_diff r.diff))
    else wrap_insert (
        if answers
        then if low
          then (counted, some violates_check)
          else if clash
          then (counted, some violates_unique)
          else (
            record counted { shares = s.shares ++ row_of s.next_share s.pool_id b r ∷ [] },
            none,
          )
        else (s, some unavailable))

insert_tests_lem :
    (r : ShareRecord) (s : Postgres) (b low answers clash : Bool)
    → type_of r.share_type ≡ some b
    → le r.diff zero_f ≡ low
    → exists (clashes (row_of s.next_share s.pool_id b r)) s.shares ≡ clash
    → Unique s.shares
    → Inserted r s (insert_tests r s b low answers clash)
insert_tests_lem r s b true answers clash t p e u = (u, inr (invalid_diff r.diff, refl, refl))
insert_tests_lem r s b false false clash t p e u =
    (u, inr (rejected_insert unavailable, refl, refl))
insert_tests_lem r s b false true true t p e u =
    (u, inr (rejected_insert violates_unique, refl, refl))
insert_tests_lem r s b false true false t p e u =
    let row = row_of s.next_share s.pool_id b r in
    (
      Unique-append row s.shares u (exists-All (clashes row) s.shares e),
      inl (b, type_of_lem r.share_type b t, p, refl, refl),
    )

typed_lem :
    (r : ShareRecord) (s : Postgres) (t : Option Bool)
    → type_of r.share_type ≡ t
    → Unique s.shares
    → Inserted r s (insert_typed t r s)
unfolding insert_row
typed_lem r s none e u = (u, inr (invalid_share_type r.share_type, refl, refl))
typed_lem r s (some b) e u = insert_tests_lem r s b (le r.diff zero_f) s.reachable _ e refl refl u

-- InsertAcceptedShare keeps the table free of rows of one pool with the same key or hash, and it
-- either adds the row of the share behind the others and reports no error, or reports an error and
-- leaves the table as it is; it adds none with another type than a share's or a block's, or with a
-- difficulty of 0 or less. Condition: the table is free of such rows before.
pub insert_accepted_share_lem :
    (r : ShareRecord) (s : Postgres) → Unique s.shares → Inserted r s (insert_accepted_share r s)
unfolding insert_accepted_share
insert_accepted_share_lem r s u = typed_lem r s (type_of r.share_type) refl u

-- A row of the pool has the key.
abbrev pub has_key : Text → Text → Share → Bool
has_key pool key s = text_eq s.pool_id pool && text_eq s.submission_key key

exists_weaken :
    (p q : Share → Bool) (ss : List Share)
    → ((s : Share) → p s ≡ true → q s ≡ true)
    → exists p ss ≡ true
    → exists q ss ≡ true
unfolding exists
exists_weaken p q [] f h = h
exists_weaken p q (s ∷ ss) f h = elim (Bool-cases (p s)) [
  | inl this ↦ rw (f s this) refl
  | inr other ↦ ground (arith, exists_weaken p q ss f (ground (arith, h, other)))
]

-- An error, and the table as it was.
abbrev pub Refused : Postgres → Postgres × Option StoreError → Type 0
Refused s o = (e : StoreError) × (o.1 ≡ some e) × (o.0.shares ≡ s.shares)

taken_tests :
    (r : ShareRecord) (s : Postgres) (b low answers clash : Bool)
    → clash ≡ true
    → Refused s (insert_tests r s b low answers clash)
taken_tests r s b true answers clash h = (invalid_diff r.diff, refl, refl)
taken_tests r s b false false clash h = (rejected_insert unavailable, refl, refl)
taken_tests r s b false true true h = (rejected_insert violates_unique, refl, refl)
taken_tests r s b false true false h = ground (arith, h)

clashes_key :
    (r : ShareRecord) (s : Postgres) (b : Bool) (t : Share)
    → has_key s.pool_id r.submission_key t ≡ true
    → clashes (row_of s.next_share s.pool_id b r) t ≡ true
clashes_key r s b t h = ground (arith, h)

-- A share with a key that a row of the pool has is refused, and the table stays as it is, whoever
-- the share is from.
pub insert_accepted_share_taken :
    (r : ShareRecord) (s : Postgres)
    → exists (has_key s.pool_id r.submission_key) s.shares ≡ true
    → Refused s (insert_accepted_share r s)
unfolding insert_accepted_share insert_row
insert_accepted_share_taken r s h = typed (type_of r.share_type)
  where
    typed : (t : Option Bool) → Refused s (insert_typed t r s)
    typed none = (invalid_share_type r.share_type, refl, refl)
    typed (some b) = taken_tests r s b (le r.diff zero_f) s.reachable _ (
        exists_weaken (has_key s.pool_id r.submission_key)
          (clashes (row_of s.next_share s.pool_id b r)) s.shares (clashes_key r s b) h)

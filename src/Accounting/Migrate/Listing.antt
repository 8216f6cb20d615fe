-- ===== src/Accounting/Migrate/Listing.antt =====
-- Which files RunMigrations takes from the directory, and in which order, said without its functions.
use mathlib.Core.List.Permᴰ
use mathlib.Core.List.{Permᴰ, reverse-append, reverse-reverse}
use qbitx_pool.Base.{
  if◌then◌else◌, ◌<◌, ◌==◌, ◌≡◌, refl, sym, ap, ◌∙◌, ◌⊎◌, inl, inr, Bool, true, false, not,
  Bool-cases, List, [], ◌∷◌, ◌++◌, map, reverse, All, Text, codes, text_lt, arith,
}
use qbitx_pool.Accounting.Database.{select, order_insert, order_by}
use qbitx_pool.Accounting.Database.Rows.{All-order_insert, All-weaken}
use qbitx_pool.Accounting.Migrate.{Entry, ends_with_sql, is_migration, list_migration_files}
use qbitx_pool.Stratum.{lower, has_prefix}

-- The name ends in `.sql`, in letters of either case.
abbrev pub IsSql : Text → Type 0
IsSql name =
    (stem : Text) × (ending : Text) × (name ≡ stem ++ ending) × (map lower ending ≡ codes ".sql")

-- The names of the files among the entries that end so, in the order of the entries.
pub data Picks : List Entry → List Text → Type 0 where
  nothing : Picks [] []
  file :
      (e : Entry) (es : List Entry) (ns : List Text)
      → e.is_dir ≡ false
      → IsSql e.name
      → Picks es ns
      → Picks (e ∷ es) (e.name ∷ ns)
  other :
      (e : Entry) (es : List Entry) (ns : List Text)
      → (e.is_dir ≡ true) ⊎ (¬ IsSql e.name)
      → Picks es ns
      → Picks (e ∷ es) ns

-- The order of texts by their bytes.
abbrev pub UpTo : Text → Text → Type 0
UpTo [] t = Unit
UpTo (a ∷ s) [] = ⊥
UpTo (a ∷ s) (b ∷ t) = (a < b) ⊎ ((a ≡ b) × UpTo s t)

abbrev pub Ascending : List Text → Type 0
Ascending [] = Unit
Ascending (s ∷ ss) = All (λ t. UpTo s t) ss × Ascending ss

abbrev pub Listed : List Entry → List Text → Type 0
Listed entries files =
    (names : List Text) × Picks entries names × Permᴰ names files × Ascending files

UpTo-trans : (s t u : Text) → UpTo s t → UpTo t u → UpTo s u
UpTo-trans [] t u h k = tt
UpTo-trans (a ∷ s) [] u h k = absurd h
UpTo-trans (a ∷ s) (b ∷ t) [] h k = absurd k
UpTo-trans (a ∷ s) (b ∷ t) (c ∷ u) (inl l) (inl m) = inl (omega (arith, l, m))
UpTo-trans (a ∷ s) (b ∷ t) (c ∷ u) (inl l) (inr (e, k)) = inl (omega (arith, l, e))
UpTo-trans (a ∷ s) (b ∷ t) (c ∷ u) (inr (e, h)) (inl l) = inl (omega (arith, l, e))
UpTo-trans (a ∷ s) (b ∷ t) (c ∷ u) (inr (e, h)) (inr (f, k)) = inr (e ∙ f, UpTo-trans s t u h k)

not_before : (s t : Text) → text_lt t s ≡ false → UpTo s t
unfolding text_lt
not_before [] t h = tt
not_before (a ∷ s) [] h = ground (arith, h)
not_before (a ∷ s) (b ∷ t) h = elim (Bool-cases (b == a)) [
  | inl same ↦ inr (ground (arith, same), not_before s t (rw same at h))
  | inr differ ↦ inl (ground (arith, h, differ))
]

before : (s t : Text) → text_lt s t ≡ true → UpTo s t
unfolding text_lt
before [] t h = tt
before (a ∷ s) [] h = ground (arith, h)
before (a ∷ s) (b ∷ t) h = elim (Bool-cases (a == b)) [
  | inl same ↦ inr (ground (arith, same), before s t (rw same at h))
  | inr differ ↦ inl (ground (arith, h, differ))
]

-- The test by which list_migration_files sorts.
abbrev in_order : Text → Text → Bool
in_order a b = not (text_lt b a)

order_insert-perm : (a : Text) (bs : List Text) → Permᴰ (a ∷ bs) (order_insert in_order a bs)
unfolding order_insert
order_insert-perm a [] = Permᴰ.refl (a ∷ [])
order_insert-perm a (b ∷ bs) = elim (Bool-cases (in_order a b)) [
  | inl yes' ↦ rw yes' (Permᴰ.refl (a ∷ b ∷ bs))
  | inr no' ↦ rw no' (Permᴰ.trans (Permᴰ.swap refl refl) (Permᴰ.cons refl (order_insert-perm a bs)))
]

order_by-perm : (as' : List Text) → Permᴰ as' (order_by in_order as')
unfolding order_by
order_by-perm [] = Permᴰ.nil
order_by-perm (a ∷ as') =
    Permᴰ.trans (Permᴰ.cons refl (order_by-perm as')) (order_insert-perm a (order_by in_order as'))

order_insert-Ascending :
    (a : Text) (bs : List Text) → Ascending bs → Ascending (order_insert in_order a bs)
unfolding order_insert
order_insert-Ascending a [] h = (tt, tt)
order_insert-Ascending a (b ∷ bs) h = elim (Bool-cases (text_lt b a)) [
  | inl less ↦ rw less (
    All-order_insert (λ t. UpTo b t) in_order a bs (before b a less) h.0,
    order_insert-Ascending a bs h.1,
  )
  | inr least ↦
      let first = not_before a b least in
      rw least (
        (
          first,
          All-weaken (λ t. UpTo b t) (λ t. UpTo a t) bs (λ t k. UpTo-trans a b t first k) h.0,
        ),
        h,
      )
]

order_by-Ascending : (as' : List Text) → Ascending (order_by in_order as')
unfolding order_by
order_by-Ascending [] = tt
order_by-Ascending (a ∷ as') =
    order_insert-Ascending a (order_by in_order as') (order_by-Ascending as')

has_prefix_lem : (p t : Text) → has_prefix p t ≡ true → (rest : Text) × (t ≡ p ++ rest)
unfolding has_prefix
has_prefix_lem [] t h = (t, refl)
has_prefix_lem (a ∷ p) [] h = ground (arith, h)
has_prefix_lem (a ∷ p) (b ∷ t) h =
    let (rest, e) = has_prefix_lem p t (ground (arith, h)) in
    let same : a ≡ b = ground (arith, h) in (rest, cc (e, same))

has_prefix-append : (p rest : Text) → has_prefix p (p ++ rest) ≡ true
unfolding has_prefix
has_prefix-append [] rest = refl
has_prefix-append (a ∷ p) rest = ground (arith, has_prefix-append p rest)

-- A text that becomes `u` and `v` in small letters has a part for each.
lower_split :
    (name u v : Text)
    → map lower name ≡ u ++ v
    → (s : Text) × (t : Text) × (name ≡ s ++ t) × (map lower t ≡ v)
lower_split name [] v h = ([], name, refl, h)
lower_split [] (a ∷ u) v h = cc
lower_split (b ∷ name) (a ∷ u) v h =
    let (s, t, e, k) = lower_split name u v (cc) in (b ∷ s, t, ap (λ l. b ∷ l) e, k)

map-++ : (s t : Text) → map lower (s ++ t) ≡ map lower s ++ map lower t
map-++ [] t = refl
map-++ (a ∷ s) t = ap (λ l. lower a ∷ l) (map-++ s t)

ends_with_sql-IsSql : (name : Text) → ends_with_sql name ≡ true → IsSql name
unfolding has_prefix ends_with_sql
ends_with_sql-IsSql name h =
    let (rest, e) = has_prefix_lem (reverse (codes ".sql")) (reverse (map lower name)) h in
    lower_split name (reverse rest) (codes ".sql") (
      sym (reverse-reverse (map lower name))
      ∙ ap reverse e
      ∙ reverse-append (reverse (codes ".sql")) rest)

IsSql-ends_with_sql : (name : Text) → IsSql name → ends_with_sql name ≡ true
unfolding ends_with_sql
IsSql-ends_with_sql name (stem, ending, e, k) =
    rw (e, map-++ stem ending, k, reverse-append (map lower stem) (codes ".sql"))
      (has_prefix-append (reverse (codes ".sql")) (reverse (map lower stem)))

is_migration-Picks : (es : List Entry) → Picks es (map (λ e. e.name) (select is_migration es))
unfolding select
is_migration-Picks [] = nothing
is_migration-Picks (e ∷ es) = decided (is_migration e) refl (is_migration-Picks es)
  where
    decided :
        (b : Bool)
        → is_migration e ≡ b
        → Picks es (map (λ e. e.name) (select is_migration es))
        → Picks
            (e ∷ es)
            (map (λ e. e.name) (if b then e ∷ select is_migration es else select is_migration es))
    decided true m ih =
        file e es _ (ground (arith, m)) (ends_with_sql-IsSql e.name (ground (arith, m))) ih
    decided false m ih = elim (Bool-cases e.is_dir) [
      | inl dir ↦ other e es _ (inl dir) ih
      | inr f ↦ other e es _ (inr (λ h. ground (arith, f, m, IsSql-ends_with_sql e.name h))) ih
    ]

pub list_migration_files-Listed : (es : List Entry) → Listed es (list_migration_files es)
unfolding list_migration_files
list_migration_files-Listed es =
    let names = map (λ (e : Entry). e.name) (select is_migration es) in
    (names, is_migration-Picks es, order_by-perm names, order_by-Ascending names)

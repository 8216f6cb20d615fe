-- ===== src/Job/Maker/Channels.antt =====
-- What a subscriber of the job maker takes from its channel.
use qbitx_pool.Base.{
  ℕ, zero, suc, ◌+◌, ◌^◌, ◌≤◌, ◌<◌, ◌==◌, ltb, if◌then◌else◌, ◌≡◌, ◌≢◌, refl, ap, sym, ◌∙◌, inl,
  inr, Bool, true, false, Bool-cases, Option, none, some, List, [], ◌∷◌, ◌++◌, length, get_or, All,
  Text, arith,
}
use qbitx_pool.Base.Results.{Result, ok, err}
use qbitx_pool.Job.{Job}
use qbitx_pool.Job.Template.{BlockTemplate, CoinbaseConfig, BuildError, job_id, build_job}
use qbitx_pool.Stratum.History.Once.{Distinct, IsPlain}
use qbitx_pool.Job.Build.{build_job_ok}
use qbitx_pool.Job.Maker.{
  Maker, new_maker, capacity, subscribe, notify, publish, poll, MakerStep, polled, subscribed,
  received, rest_of, receive, maker_step, maker_run,
}
use qbitx_pool.Job.Maker.Ids.{job_id_injective, hex_text_plain}

-- The jobs are numbered in increasing order, above `low` and up to `high`.
abbrev pub Numbered : ℕ → ℕ → List Job → Type 0
Numbered low high [] = Unit
Numbered low high (j ∷ js) =
    (k : ℕ) × (j.id ≡ job_id k) × (low < k) × (k ≤ high) × Numbered k high js

Numbered-weaken :
    (low high more : ℕ) (js : List Job) → high ≤ more → Numbered low high js → Numbered low more js
Numbered-weaken low high more [] h n = tt
Numbered-weaken low high more (j ∷ js) h (k, e, a, b, rest) =
    (k, e, a, omega (arith, b), Numbered-weaken k high more js h rest)

-- A job of the next number joins.
Numbered-send :
    (low high : ℕ) (j : Job) (js : List Job)
    → low ≤ high
    → j.id ≡ job_id (high + 1)
    → Numbered low high js
    → Numbered low (high + 1) (js ++ j ∷ [])
Numbered-send low high j [] l e n = (high + 1, e, omega arith, omega arith, tt)
Numbered-send low high j (i ∷ js) l e (k, q, a, b, rest) =
    (k, q, a, omega (arith, b), Numbered-send k high j js b e rest)

Numbered-notify :
    (low high n : ℕ) (j : Job) (chs : List (List Job))
    → low ≤ high
    → j.id ≡ job_id (high + 1)
    → Numbered low high (get_or chs n [])
    → Numbered low (high + 1) (get_or (notify j chs) n [])
unfolding notify
Numbered-notify low high n j [] l e h = tt
Numbered-notify low high (suc n) j (ch ∷ chs) l e h = Numbered-notify low high n j chs l e h
Numbered-notify low high zero j (ch ∷ chs) l e h = elim (Bool-cases (ltb (length ch) capacity)) [
  | inl room ↦ rw room (Numbered-send low high j ch l e h)
  | inr full ↦ rw full (Numbered-weaken low high (high + 1) ch (omega arith) h)
]

get_or-subscribe : (n : ℕ) (chs : List (List Job)) → get_or (chs ++ [] ∷ []) n [] ≡ get_or chs n []
get_or-subscribe zero [] = refl
get_or-subscribe (suc n) [] = refl
get_or-subscribe zero (ch ∷ chs) = refl
get_or-subscribe (suc n) (ch ∷ chs) = get_or-subscribe n chs

get_or-receive :
    (n : ℕ) (chs : List (List Job)) → get_or (receive n chs) n [] ≡ rest_of (get_or chs n [])
unfolding receive
get_or-receive n [] = refl
get_or-receive zero (ch ∷ chs) = refl
get_or-receive (suc n) (ch ∷ chs) = get_or-receive n chs

get_or-receive_other :
    (k n : ℕ) (chs : List (List Job))
    → (k == n) ≡ false
    → get_or (receive k chs) n [] ≡ get_or chs n []
unfolding receive
get_or-receive_other k n [] h = refl
get_or-receive_other zero zero (ch ∷ chs) h = ground (arith, h)
get_or-receive_other zero (suc n) (ch ∷ chs) h = refl
get_or-receive_other (suc k) zero (ch ∷ chs) h = refl
get_or-receive_other (suc k) (suc n) (ch ∷ chs) h = get_or-receive_other k n chs (ground (arith, h))

-- The job that subscriber `n` takes in a step, and those that it takes in a run.
abbrev pub first_of : List Job → List Job
first_of [] = []
first_of (j ∷ js) = j ∷ []

abbrev pub takes : ℕ → MakerStep → Maker → List Job
takes n (polled answer) m = []
takes n subscribed m = []
takes n (received k) m = if k == n then first_of (get_or m.subs n []) else []

abbrev pub taken : CoinbaseConfig → ℕ → List MakerStep → Maker → List Job
taken cfg n [] m = []
taken cfg n (s ∷ ss) m = takes n s m ++ taken cfg n ss (maker_step cfg s m)

-- The jobs that are published so far are numbered up to `seq`, and those that subscriber `n` has not
-- taken are above `low`.
record Inv (n low : ℕ) (m : Maker) : Type 0 where
  waiting : Numbered low m.seq (get_or m.subs n [])
  bound : low ≤ m.seq

job_of_id :
    (cfg : CoinbaseConfig) (id : Text) (tpl : BlockTemplate) (clean : Bool) (j : Job)
    → build_job cfg id tpl clean ≡ ok j
    → j.id ≡ id
job_of_id cfg id tpl clean j e =
    let (txs, prev, p, q, made) = build_job_ok cfg id tpl clean j e in sym (ap (λ k. k.id) made)

poll-Inv :
    (cfg : CoinbaseConfig) (n low : ℕ) (answer : Option BlockTemplate) (m : Maker)
    → Inv n low m
    → Inv n low (poll cfg answer m)
unfolding poll
poll-Inv cfg n low none m v = v
poll-Inv cfg n low (some tpl) m v =
    published (build_job cfg (job_id (m.seq + 1)) tpl _) (λ j e. job_of_id cfg _ tpl _ j e)
  where
    published :
        (r : Result BuildError Job)
        → ((j : Job) → r ≡ ok j → j.id ≡ job_id (m.seq + 1))
        → Inv n low (publish (record m { last_prev = tpl.previous_block_hash; seq = m.seq + 1 }) r)
    published (err e) f = record {
      waiting = Numbered-weaken low m.seq (m.seq + 1) _ (omega arith) v.waiting;
      bound = omega (arith, v.bound);
    }
    published (ok j) f = record {
      waiting = Numbered-notify low m.seq n j m.subs v.bound (f j refl) v.waiting;
      bound = omega (arith, v.bound);
    }

seq-maker_step :
    (cfg : CoinbaseConfig) (s : MakerStep) (m : Maker) → m.seq ≤ (maker_step cfg s m).seq
unfolding maker_step poll subscribe
seq-maker_step cfg (polled none) m = omega arith
seq-maker_step cfg (polled (some tpl)) m = published (build_job cfg (job_id (m.seq + 1)) tpl _)
  where
    published :
        (r : Result BuildError Job)
        → m.seq
          ≤ (publish (record m { last_prev = tpl.previous_block_hash; seq = m.seq + 1 }) r).seq
    published (err e) = omega arith
    published (ok j) = omega arith
seq-maker_step cfg subscribed m = omega arith
seq-maker_step cfg (received k) m = omega arith

seq-maker_run :
    (cfg : CoinbaseConfig) (ss : List MakerStep) (m : Maker) → m.seq ≤ (maker_run cfg ss m).seq
unfolding maker_run
seq-maker_run cfg [] m = omega arith
seq-maker_run cfg (s ∷ ss) m =
    omega (arith, seq-maker_step cfg s m, seq-maker_run cfg ss (maker_step cfg s m))

-- The head of the channel is taken, and the rest of the run goes on from `m`.
after_take :
    (n low final : ℕ) (chan later : List Job) (m : Maker)
    → ((low' : ℕ) → Inv n low' m → Numbered low' final later)
    → get_or m.subs n [] ≡ rest_of chan
    → Numbered low m.seq chan
    → low ≤ m.seq
    → m.seq ≤ final
    → Numbered low final (first_of chan ++ later)
after_take n low final [] later m f e w b l = f low (record { waiting = rw e tt; bound = b })
after_take n low final (j ∷ js) later m f e (k, q, a, c, rest) b l =
    (k, q, a, omega (arith, c, l), f k (record { waiting = rw e rest; bound = c }))

same_number : (k n : ℕ) → (k == n) ≡ true → n ≡ k
same_number k n h = ground (arith, h)

taken-Numbered :
    (cfg : CoinbaseConfig) (n low : ℕ) (ss : List MakerStep) (m : Maker)
    → Inv n low m
    → Numbered low (maker_run cfg ss m).seq (taken cfg n ss m)
unfolding maker_run maker_step subscribe
taken-Numbered cfg n low [] m v = tt
taken-Numbered cfg n low (polled answer ∷ ss) m v =
    taken-Numbered cfg n low ss (poll cfg answer m) (poll-Inv cfg n low answer m v)
taken-Numbered cfg n low (subscribed ∷ ss) m v =
    taken-Numbered cfg n low ss (subscribe m)
      (record { waiting = rw (get_or-subscribe n m.subs) v.waiting; bound = v.bound })
taken-Numbered cfg n low (received k ∷ ss) m v = elim (Bool-cases (k == n)) [
  | inr other ↦ rw other (
      taken-Numbered cfg n low ss _ (record {
        waiting = rw (get_or-receive_other k n m.subs other) v.waiting;
        bound = v.bound;
      }))
  | inl this ↦ rw this (
      after_take n low _ (get_or m.subs n []) _ _ (λ l u. taken-Numbered cfg n l ss _ u)
        (rw (same_number k n this) (get_or-receive k m.subs)) v.waiting v.bound
        (seq-maker_run cfg ss _))
]

-- What the jobs of increasing numbers have in common: ids that differ and have no separator.
abbrev pub ids : List Job → List Text
ids [] = []
ids (j ∷ js) = j.id ∷ ids js

ids_above :
    (k low high : ℕ) (js : List Job)
    → high < 16 ^ 16
    → k ≤ low
    → k ≤ high
    → Numbered low high js
    → All (λ u. job_id k ≢ u) (ids js)
ids_above k low high [] h l b n = tt
ids_above k low high (j ∷ js) h l b (m, e, a, c, rest) = (
  (λ q. apart (job_id_injective k m (omega arith) (omega (arith, c, h)) (q ∙ e))),
  ids_above k m high js h (omega (arith, a, l)) b rest,
)
  where
    apart : k ≡ m → ⊥
    apart q = omega (arith, a, l, q)

ids-Distinct :
    (low high : ℕ) (js : List Job) → high < 16 ^ 16 → Numbered low high js → Distinct (ids js)
ids-Distinct low high [] h n = tt
ids-Distinct low high (j ∷ js) h (k, e, a, b, rest) =
    (rw e (ids_above k k high js h (omega arith) b rest), ids-Distinct k high js h rest)

ids-IsPlain : (low high : ℕ) (js : List Job) → Numbered low high js → All IsPlain (ids js)
unfolding job_id
ids-IsPlain low high [] n = tt
ids-IsPlain low high (j ∷ js) (k, e, a, b, rest) =
    (rw e (hex_text_plain 16 k), ids-IsPlain k high js rest)

-- The jobs that a subscriber takes from its channel have different ids without a separator, whatever
-- the daemon answers, whoever else subscribes, and whenever the subscriber takes a job. Condition:
-- the numbers of the jobs stay below 2^64.
pub taken-Distinct :
    (cfg : CoinbaseConfig) (n : ℕ) (ss : List MakerStep)
    → (maker_run cfg ss new_maker).seq < 16 ^ 16
    → Distinct (ids (taken cfg n ss new_maker)) × All IsPlain (ids (taken cfg n ss new_maker))
taken-Distinct cfg n ss h =
    let numbered =
      taken-Numbered cfg n 0 ss new_maker (record { waiting = tt; bound = omega arith }) in
    (ids-Distinct 0 _ _ h numbered, ids-IsPlain 0 _ _ numbered)

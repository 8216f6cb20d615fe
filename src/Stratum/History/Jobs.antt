-- ===== src/Stratum/History/Jobs.antt =====
-- A connection whose jobs come from the job maker of internal/job/job.go, by way of broadcastJob.
use qbitx_pool.Base.{ℕ, ◌^◌, ◌<◌, ◌≡◌, ◌≢◌, Option, List, [], ◌∷◌, ◌++◌, All, Text}
use mathlib.Core.Path.{subst}
use qbitx_pool.Job.{Job}
use qbitx_pool.Job.Template.{CoinbaseConfig}
use qbitx_pool.Job.Maker.{MakerStep, new_maker, maker_run}
use qbitx_pool.Job.Maker.Channels.{ids, taken, taken-Distinct}
use qbitx_pool.Accounting.Store.{ShareStore}
use qbitx_pool.Stratum.{DifficultyConfig}
use qbitx_pool.Stratum.Conn.{Conn, RetargetConfig}
use qbitx_pool.Stratum.Submit.{Validator}
use qbitx_pool.Stratum.History.{Event, recorded, run}
use qbitx_pool.Stratum.History.Once.{Distinct, IsPlain, IsCalm, keys, job_ids, run-Distinct}

All-middle :
    (P : Text → Type 0) (before middle after : List Text)
    → All P (before ++ (middle ++ after))
    → All P middle
All-middle P [] [] after h = tt
All-middle P [] (t ∷ middle) after h = (h.0, All-middle P [] middle after h.1)
All-middle P (t ∷ before) middle after h = All-middle P before middle after h.1

Distinct-middle :
    (before middle after : List Text) → Distinct (before ++ (middle ++ after)) → Distinct middle
Distinct-middle [] [] after h = tt
Distinct-middle [] (t ∷ middle) after h =
    (All-middle (λ u. t ≢ u) [] middle after h.0, Distinct-middle [] middle after h.1)
Distinct-middle (t ∷ before) middle after h = Distinct-middle before middle after h.1

module _ {S : Type 0} (store : ShareStore S) (cfg : DifficultyConfig) (rc : RetargetConfig)
    (validate : Option Job → Validator) where
  -- A connection that is served the jobs of the job maker hands no submission to the share store
  -- twice, whatever the daemon answers the job maker, whatever the miner sends, and however
  -- validator and store answer. Conditions: the
  -- job that the connection has and those that are delivered to it follow each other among the jobs
  -- that the server takes from its channel, no job arrives while a submission is handled, the miner
  -- does not subscribe again, and the numbers of the jobs stay below 2^64.
  pub run_maker-Distinct :
      (jobs : CoinbaseConfig) (n : ℕ) (ss : List MakerStep) (es : List Event) (c : Conn) (s : S)
      (before after : List Text)
      → (maker_run jobs ss new_maker).seq < 16 ^ 16
      → ids (taken jobs n ss new_maker) ≡ before ++ ((c.current_job ∷ job_ids es) ++ after)
      → All IsCalm es
      → Distinct (keys (run (recorded store) cfg rc validate es c ([], s)).1.0)
  run_maker-Distinct jobs n ss es c s before after few e calm =
      let (distinct, plain) = taken-Distinct jobs n ss few in
      run-Distinct store cfg rc validate es c s calm
        (All-middle IsPlain before (c.current_job ∷ job_ids es) after (subst (All IsPlain) e plain))
        (Distinct-middle before (c.current_job ∷ job_ids es) after (subst Distinct e distinct))

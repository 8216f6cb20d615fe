-- ===== src/Job/Maker/Clean.antt =====
-- The flag that tells miners to drop what they work on.
use qbitx_pool.Base.{◌+◌, ◌≡◌, ap, sym, ◌∙◌, Bool, true, false, not, some, text_eq, text_eq_refl}
use qbitx_pool.Base.Results.{Result, ok, err}
use qbitx_pool.Job.{Job}
use qbitx_pool.Job.Template.{BlockTemplate, CoinbaseConfig, BuildError, job_id, build_job}
use qbitx_pool.Job.Build.{build_job_ok}
use qbitx_pool.Job.Maker.{Maker, publish, poll}

-- A round with a template publishes what is built with the flag of that template.
pub poll_lem :
    (cfg : CoinbaseConfig) (m : Maker) (tpl : BlockTemplate) (clean : Bool)
    (r : Result BuildError Job)
    → not (text_eq tpl.previous_block_hash m.last_prev) ≡ clean
    → build_job cfg (job_id (m.seq + 1)) tpl clean ≡ r
    → poll cfg (some tpl) m
      ≡ publish (record m { last_prev = tpl.previous_block_hash; seq = m.seq + 1 }) r
unfolding poll
poll_lem cfg m tpl clean r c e =
    let publish_it = publish (record m { last_prev = tpl.previous_block_hash; seq = m.seq + 1 }) in
    ap (λ b. publish_it (build_job cfg (job_id (m.seq + 1)) tpl b)) c ∙ ap publish_it e

-- A job on a new tip loses its flag when the first template of that tip cannot be built into a job:
-- the next one can, becomes the current job, and says that the old work may go on. Conditions: the
-- first template is of a new tip and fails, and the second is of the same tip and does not fail.
poll_clean_lost :
    (cfg : CoinbaseConfig) (m : Maker) (t1 t2 : BlockTemplate) (e : BuildError) (j : Job)
    → text_eq t1.previous_block_hash m.last_prev ≡ false
    → t2.previous_block_hash ≡ t1.previous_block_hash
    → build_job cfg (job_id (m.seq + 1)) t1 true ≡ err e
    → build_job cfg (job_id (m.seq + 1 + 1)) t2 false ≡ ok j
    → ((poll cfg (some t2) (poll cfg (some t1) m)).current ≡ some j) × (j.clean_jobs ≡ false)
unfolding publish
poll_clean_lost cfg m t1 t2 e j new same bad good =
    let (txs, prev, p, q, made) = build_job_ok cfg (job_id (m.seq + 1 + 1)) t2 false j good in
    (
      ap (λ k. k.current)
          (ap (poll cfg (some t2)) (poll_lem cfg m t1 true (err e) (ap not new) bad)
            ∙ poll_lem cfg (record m { last_prev = t1.previous_block_hash; seq = m.seq + 1 }) t2
                false (ok j)
                (ap not (
                  ap (λ u. text_eq u t1.previous_block_hash) same
                  ∙ text_eq_refl t1.previous_block_hash))
                good),
      sym (ap (λ k. k.clean_jobs) made),
    )

-- ===== src/Stratum/History/Again.antt =====
-- A second mining.subscribe clears the list of submissions of the current job.
use qbitx_pool.Base.{
  ℕ, ◌≡◌, ◌≢◌, refl, ap, sym, ◌∙◌, inl, inr, true, false, Option, none, some, List, [], ◌∷◌, Text,
  arith,
}
use mathlib.Core.Option.{some-injective}
use qbitx_pool.Job.{Job}
use qbitx_pool.Accounting.Store.{ShareStore}
use qbitx_pool.Stratum.{DifficultyConfig}
use qbitx_pool.Stratum.Message.{Json, string_params}
use qbitx_pool.Stratum.Conn.{Conn, RetargetConfig, member, send_job, handle_subscribe}
use qbitx_pool.Stratum.Submit.{
  Validator, Work, work_params, submission_key, submission_of, send_jobs, handle_submit,
}
use qbitx_pool.Stratum.Submit.Branches.{
  malformed, locked_out, stale, repeated, invalid, unrecorded, stored, handle_submit_lem,
}
use qbitx_pool.Stratum.Submit.Accepted.{handle_submit-Answered}
use qbitx_pool.Stratum.History.{recorded}
use qbitx_pool.Stratum.History.Once.{keys}

module _ {S : Type 0} (store : ShareStore S) (cfg : DifficultyConfig) (rc : RetargetConfig)
    (validate : Validator) (id : Text) (params : Option Json) (now : ℕ) (w : Work)
    (parsed : work_params (string_params params) ≡ some w) where
  abbrev pub offered : Conn → S → List Text
  offered c s =
      keys (handle_submit (recorded store) cfg rc validate id params now [] c ([], s)).store.0

  same_work : {v : Work} → work_params (string_params params) ≡ some v → v ≡ w
  same_work {v = v} p = some-injective v w (sym p ∙ parsed)

  offered_new :
      (c : Conn) (s : S)
      → c.authorized ≡ true
      → c.current_job ≢ []
      → w.job_id ≡ c.current_job
      → member (submission_key w) c.submitted ≡ false
      → (validate (submission_of c w)).0.error ≡ none
      → offered c s ≡ submission_key w ∷ []
  unfolding send_jobs
  offered_new c s a j k new good =
      elim (handle_submit-Answered (recorded store) cfg rc validate id params now [] c ([], s) w
        (record { parsed = parsed; authorized = a; has_job = j; current = k; unseen = new }) good) [
          | inl (er, bad, e) ↦ rw e refl
          | inr (fine, e) ↦ rw e refl
        ]

  offered_old :
      (c : Conn) (s : S)
      → w.job_id ≡ c.current_job
      → member (submission_key w) c.submitted ≡ true
      → offered c s ≡ []
  unfolding send_jobs
  offered_old c s k old =
      elim (handle_submit_lem (recorded store) cfg rc validate id params now [] c ([], s)) [
        | malformed bad e ↦ rw e refl
        | locked_out out e ↦ rw e refl
        | stale v p a' why e ↦ rw e refl
        | repeated v p k' seen e ↦ rw e refl
        | invalid v b er bad e ↦ rw e refl
        | unrecorded v b good' er bad e ↦ ground (
          arith,
          ap (λ u. member (submission_key u) c.submitted) (same_work b.parsed),
          b.unseen,
          old,
        )
        | stored v b good' fine e ↦ ground (
          arith,
          ap (λ u. member (submission_key u) c.submitted) (same_work b.parsed),
          b.unseen,
          old,
        )
      ]

  -- A submission that a connection has in its list is not handed to the share store again, but it is
  -- once the miner sends mining.subscribe, because that sends the current job again and clears the
  -- list. Conditions: the connection is authorized, the submission is for its current job, which is
  -- the job maker's and has an id, and the validator accepts it.
  pub offered-handle_subscribe :
      (c : Conn) (s : S) (j : Job) (request_id : Text)
      → c.authorized ≡ true
      → j.id ≡ c.current_job
      → c.current_job ≢ []
      → w.job_id ≡ c.current_job
      → member (submission_key w) c.submitted ≡ true
      → (validate (submission_of c w)).0.error ≡ none
      → (offered c s ≡ [])
        × (offered (handle_subscribe request_id (some j) c).0 s ≡ submission_key w ∷ [])
  unfolding handle_subscribe send_job member
  offered-handle_subscribe c s j request_id a cur has k old good =
      (offered_old c s k old, offered_new _ s a (λ e. has (sym cur ∙ e)) (k ∙ sym cur) refl good)

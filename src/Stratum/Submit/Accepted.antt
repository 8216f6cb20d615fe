-- ===== src/Stratum/Submit/Accepted.antt =====
-- A submission that passes the guards and that the validator accepts comes to the share store.
use qbitx_pool.Base.{
  ℕ, ◌≡◌, refl, ap, sym, ◌∙◌, ◌⊎◌, inl, inr, true, Option, none, some, List, [], ◌∷◌, ◌++◌, Text,
  arith,
}
use qbitx_pool.Base.Results.{none-some}
use mathlib.Core.Option.{some-injective}
use qbitx_pool.Job.{Job}
use qbitx_pool.Accounting.Database.{exists}
use qbitx_pool.Accounting.Store.{ShareStore, StoreError, Postgres, postgres_store}
use qbitx_pool.Accounting.Store.Unique.{has_key, insert_accepted_share_taken}
use qbitx_pool.Stratum.{DifficultyConfig}
use qbitx_pool.Stratum.Message.{
  Json, string_params, accounting_unavailable, done, result, send_error,
}
use qbitx_pool.Stratum.Conn.{Conn, RetargetConfig, member, retarget}
use qbitx_pool.Stratum.Submit.{
  Outcome, Validator, Work, work_params, submission_key, submission_of, send_jobs, share_record,
  change_message, handle_submit,
}
use qbitx_pool.Stratum.Submit.Branches.{
  Admitted, lines, marked, inserted, malformed, locked_out, stale, repeated, invalid, unrecorded,
  stored, handle_submit_lem,
}

module _ {S : Type 0} (store : ShareStore S) (cfg : DifficultyConfig) (rc : RetargetConfig)
    (validate : Validator) (id : Text) (params : Option Json) (now : ℕ) (late : List Job) (c : Conn)
    (s : S) (w : Work) where
  abbrev at_work : Work → S × Option StoreError
  at_work v = inserted store cfg rc validate id params now late c s v

  -- What the answer of the store makes of the outcome.
  abbrev pub Answered : Outcome S → Type 0
  Answered o =
      ((e : StoreError) × ((at_work w).1 ≡ some e)
        × (o ≡ record {
          conn = marked store cfg rc validate id params now late c s w;
          store = (at_work w).0;
          sent =
              lines store cfg rc validate id params now late c s
              ++ send_error id accounting_unavailable ∷ [];
          blocks = (validate (submission_of c w)).1;
        }))
      ⊎ (((at_work w).1 ≡ none)
          × (o ≡ (
              let r = retarget cfg rc now (marked store cfg rc validate id params now late c s w) in
              record {
                conn = r.0;
                store = (at_work w).0;
                sent =
                    lines store cfg rc validate id params now late c s
                    ++ result id done ∷ change_message r.1;
                blocks = (validate (submission_of c w)).1;
              })))

  pub handle_submit-Answered :
      Admitted store cfg rc validate id params now late c s w
      → (validate (submission_of c w)).0.error ≡ none
      → Answered (handle_submit store cfg rc validate id params now late c s)
  handle_submit-Answered a good =
      elim (handle_submit_lem store cfg rc validate id params now late c s) [
        | malformed bad e ↦ absurd (none-some (sym bad ∙ a.parsed))
        | locked_out out e ↦ ground (arith, out, a.authorized)
        | stale v p a' (inl empty) e ↦ absurd (a.has_job empty)
        | stale v p a' (inr other) e ↦ absurd (other (ap (λ u. u.job_id) (same p) ∙ a.current))
        | repeated v p k seen e ↦ ground (
          arith,
          ap (λ u. member (submission_key u) (send_jobs late c).0.submitted) (same p),
          seen,
          a.unseen,
        )
        | invalid v b er bad e ↦ absurd (
            none-some (
              sym good
              ∙ ap (λ u. (validate (submission_of c u)).0.error) (sym (same b.parsed))
              ∙ bad))
        | unrecorded v b good' er bad e ↦
            inl
              (er, ap (λ u. (at_work u).1) (sym (same b.parsed)) ∙ bad, rw (sym (same b.parsed)) e)
        | stored v b good' fine e ↦
            inr (ap (λ u. (at_work u).1) (sym (same b.parsed)) ∙ fine, rw (sym (same b.parsed)) e)
      ]
    where
      same : {v : Work} → work_params (string_params params) ≡ some v → v ≡ w
      same {v = v} p = some-injective v w (sym p ∙ a.parsed)

-- A valid share of a miner is refused with "share accounting unavailable" when a row of the pool has
-- the same submission key, although its own connection never submitted it: the key has neither the
-- worker nor the connection's extra nonce in it. Conditions: the submission passes the guards, the
-- validator accepts it, and no job arrives meanwhile.
pub handle_submit_clash :
    (cfg : DifficultyConfig) (rc : RetargetConfig) (validate : Validator) (id : Text)
    (params : Option Json) (now : ℕ) (c : Conn) (s : Postgres) (w : Work)
    → Admitted postgres_store cfg rc validate id params now [] c s w
    → (validate (submission_of c w)).0.error ≡ none
    → exists (has_key s.pool_id (submission_key w)) s.shares ≡ true
    → (let o = handle_submit postgres_store cfg rc validate id params now [] c s in
        (o.sent ≡ send_error id accounting_unavailable ∷ []) × (o.store.shares ≡ s.shares))
unfolding send_jobs
handle_submit_clash cfg rc validate id params now c s w a good taken =
    let (er, bad, kept) =
      insert_accepted_share_taken
        (share_record c (submission_key w) (validate (submission_of c w)).0) s taken in
    elim (handle_submit-Answered postgres_store cfg rc validate id params now [] c s w a good) [
      | inl (er', bad', e) ↦ rw e (refl, kept)
      | inr (fine, e) ↦ absurd (none-some (sym fine ∙ bad))
    ]

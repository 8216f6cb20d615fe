-- ===== src/Stratum/Submit/Branches.antt =====
-- Every way that handleSubmit ends, for any validator and any share store.
use qbitx_pool.Base.{
  if◌then◌else◌, ℕ, ◌≡◌, refl, ap, ◌≢◌, ◌⊎◌, inl, inr, Bool, true, false, Bool-cases, Option-cases,
  not, ◌||◌, Option, none, some, List, [], ◌∷◌, ◌++◌, Text, text_eq, text_eq→eq, eq→text_eq, arith,
}
use qbitx_pool.Job.{Job}
use qbitx_pool.Share.{ShareResult, ShareError}
use qbitx_pool.Accounting.Store.{ShareStore, StoreError}
use qbitx_pool.Stratum.{DifficultyConfig}
use qbitx_pool.Stratum.Message.{
  Json, string_params, bad_params, unauthorized, stale_job, duplicate_share, invalid_share,
  accounting_unavailable, done, Message, result, send_error,
}
use qbitx_pool.Stratum.Conn.{Conn, RetargetConfig, member, mark_submitted, retarget}
use qbitx_pool.Stratum.Submit.{
  Outcome, Validator, Work, work_params, submission_key, submission_of, send_jobs, share_record,
  change_message, refuse, settle_share, record_share, judge_work, after_lines, submit_work,
  handle_submit,
}

text_neq : (s t : Text) → text_eq s t ≡ false → s ≢ t
text_neq s t h e = ground (arith, eq→text_eq s t e)

module _ {S : Type 0} (store : ShareStore S) (cfg : DifficultyConfig) (rc : RetargetConfig)
    (validate : Validator) (id : Text) (params : Option Json) (now : ℕ) (late : List Job) (c : Conn)
    (s : S) where
  abbrev pub WorkIs : Work → Type 0
  WorkIs w = work_params (string_params params) ≡ some w

  -- The connection after the broadcasts, and with the key of the submission.
  abbrev pub moved : Conn
  moved = (send_jobs late c).0

  abbrev pub lines : List Message
  lines = (send_jobs late c).1

  abbrev pub marked : Work → Conn
  marked w = record moved { submitted = submission_key w ∷ moved.submitted }

  abbrev pub judged : Work → ShareResult × List Text
  judged w = validate (submission_of c w)

  abbrev pub inserted : Work → S × Option StoreError
  inserted w = store.insert_accepted_share (share_record c (submission_key w) (judged w).0) s

  -- The guards that a submission has passed before it is judged.
  pub record Admitted (w : Work) : Type 0 where
    pub parsed : WorkIs w
    pub authorized : c.authorized ≡ true
    pub has_job : c.current_job ≢ []
    pub current : w.job_id ≡ c.current_job
    pub unseen : member (submission_key w) moved.submitted ≡ false

  pub data Handled (o : Outcome S) : Type 0 where
    malformed : work_params (string_params params) ≡ none → o ≡ refuse id bad_params c s → Handled o
    locked_out : c.authorized ≡ false → o ≡ refuse id unauthorized c s → Handled o
    stale :
        (w : Work)
        → WorkIs w
        → c.authorized ≡ true
        → (c.current_job ≡ []) ⊎ (w.job_id ≢ c.current_job)
        → o ≡ refuse id stale_job c s
        → Handled o
    repeated :
        (w : Work)
        → WorkIs w
        → w.job_id ≡ c.current_job
        → member (submission_key w) moved.submitted ≡ true
        → o ≡ record {
          conn = moved;
          store = s;
          sent = lines ++ send_error id duplicate_share ∷ [];
          blocks = [];
        }
        → Handled o
    invalid :
        (w : Work)
        → Admitted w
        → (e : ShareError) → (judged w).0.error ≡ some e
        → o ≡ record {
          conn = marked w;
          store = s;
          sent = lines ++ send_error id (invalid_share e) ∷ [];
          blocks = (judged w).1;
        }
        → Handled o
    unrecorded :
        (w : Work)
        → Admitted w
        → (judged w).0.error ≡ none
        → (e : StoreError) → (inserted w).1 ≡ some e
        → o ≡ record {
          conn = marked w;
          store = (inserted w).0;
          sent = lines ++ send_error id accounting_unavailable ∷ [];
          blocks = (judged w).1;
        }
        → Handled o
    stored :
        (w : Work)
        → Admitted w
        → (judged w).0.error ≡ none
        → (inserted w).1 ≡ none
        → o ≡ record {
          conn = (retarget cfg rc now (marked w)).0;
          store = (inserted w).0;
          sent = lines ++ result id done ∷ change_message (retarget cfg rc now (marked w)).1;
          blocks = (judged w).1;
        }
        → Handled o

  settled_lem :
      (w : Work)
      → Admitted w
      → (judged w).0.error ≡ none
      → Handled (
          after_lines lines (settle_share store cfg rc id now (marked w) (judged w).1 (inserted w)))
  unfolding retarget settle_share
  settled_lem w a good = settled_of (inserted w) refl
    where
      settled_of :
          (x : S × Option StoreError)
          → inserted w ≡ x
          → Handled (after_lines lines (settle_share store cfg rc id now (marked w) (judged w).1 x))
      settled_of (s', none) q = stored w a good (ap (λ x. x.1) q) (rw q refl)
      settled_of (s', some e) q = unrecorded w a good e (ap (λ x. x.1) q) (rw q refl)

  judged_lem :
      (w : Work)
      → Admitted w
      → Handled (
          after_lines lines (
            record_share store cfg rc id now
              (submission_key w)
              c
              (marked w)
              s
              (judged w).0.error
              (judged w)))
  judged_lem w a = elim (Option-cases (judged w).0.error) [
    | inl good ↦ rw good (settled_lem w a good)
    | inr (e, bad) ↦ rw bad (invalid w a e bad refl)
  ]

  passed_lem :
      (w : Work)
      → WorkIs w
      → c.authorized ≡ true
      → c.current_job ≢ []
      → w.job_id ≡ c.current_job
      → Handled (
          after_lines lines (
            judge_work store cfg rc validate id now w c
              (mark_submitted (submission_key w) moved)
              moved
              s))
  unfolding mark_submitted
  passed_lem w p a j k = elim (Bool-cases (member (submission_key w) moved.submitted)) [
    | inl seen ↦ rw seen (repeated w p k seen refl)
    | inr new ↦ rw new (
        judged_lem w
          (record { parsed = p; authorized = a; has_job = j; current = k; unseen = new }))
  ]

  stale_lem :
      (w : Work)
      → (text_eq c.current_job [] || not (text_eq w.job_id c.current_job)) ≡ true
      → (c.current_job ≡ []) ⊎ (w.job_id ≢ c.current_job)
  stale_lem w h = elim (Bool-cases (text_eq c.current_job [])) [
    | inl empty ↦ inl (text_eq→eq c.current_job [] empty)
    | inr j ↦ inr (text_neq w.job_id c.current_job (ground arith))
  ]

  work_lem :
      (w : Work) → WorkIs w → Handled (submit_work store cfg rc validate id (some w) now late c s)
  unfolding submit_work
  work_lem w p = guarded c.authorized _ refl refl
    where
      guarded :
          (a b : Bool)
          → c.authorized ≡ a
          → (text_eq c.current_job [] || not (text_eq w.job_id c.current_job)) ≡ b
          → Handled (
              if not a
              then refuse id unauthorized c s
              else if b
              then refuse id stale_job c s
              else after_lines lines (
                  judge_work store cfg rc validate id now w c
                    (mark_submitted (submission_key w) moved)
                    moved
                    s))
      guarded false b e h = locked_out e refl
      guarded true true e h = stale w p e (stale_lem w h) refl
      guarded true false e h =
          passed_lem w p e (text_neq c.current_job [] (ground arith))
            (text_eq→eq w.job_id c.current_job (ground arith))

  -- handleSubmit ends in one of seven ways. It refuses parameters that are not enough, a miner that is
  -- not authorized, a job that is not the current one or where there is none, each without a change,
  -- and a submission whose key the connection has already. Any other is judged: it is refused where
  -- the validator finds an error or the store does, and else answered and counted by retarget. All
  -- that are judged have their key in the list, and their blocks are handed to the daemon.
  pub handle_submit_lem : Handled (handle_submit store cfg rc validate id params now late c s)
  unfolding handle_submit
  handle_submit_lem = elim (Option-cases (work_params (string_params params))) [
    | inl bad ↦ rw bad (malformed bad refl)
    | inr (w, p) ↦ rw p (work_lem w p)
  ]

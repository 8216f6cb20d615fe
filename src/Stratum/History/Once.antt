-- ===== src/Stratum/History/Once.antt =====
-- Which submissions a connection hands to the share store over its life.
use qbitx_pool.Base.{
  ℕ, if◌then◌else◌, ◌==◌, ◌≡◌, ◌≢◌, refl, sym, ap, ◌∙◌, inl, inr, Bool, true, false, Option, List,
  [], ◌∷◌, ◌++◌, All, Text, codes, text_eq, text_eq_refl, arith,
}
use qbitx_pool.Job.{Job}
use qbitx_pool.Accounting.Database.Rows.{All-weaken}
use qbitx_pool.Accounting.Store.{ShareRecord, ShareStore}
use qbitx_pool.Stratum.{DifficultyConfig}
use qbitx_pool.Stratum.Retarget.{retarget-Same}
use qbitx_pool.Stratum.Message.{Json, Request}
use qbitx_pool.Stratum.Conn.{Conn, RetargetConfig, member, send_job, retarget}
use qbitx_pool.Stratum.Submit.{Outcome, Validator, Work, submission_key, send_jobs, handle_submit}
use qbitx_pool.Stratum.Submit.Branches.{
  malformed, locked_out, stale, repeated, invalid, unrecorded, stored, handle_submit_lem,
}
use qbitx_pool.Stratum.History.{Event, request, deliver, recorded, handle_request, run}
use qbitx_pool.Stratum.History.Cases.{request_cases, handle_authorize_cases}

-- An id without the separator of submission keys, as the job maker makes them.
abbrev pub IsPlain : Text → Type 0
IsPlain t = All (λ b. (b == b'|') ≡ false) t

-- Two keys that are equal have one job.
job_of_key : (s t u v : Text) → IsPlain s → IsPlain t → s ++ b'|' ∷ u ≡ t ++ b'|' ∷ v → s ≡ t
job_of_key [] [] u v p q e = refl
job_of_key [] (b ∷ t) u v p q e = absurd (grind (arith, q, e))
job_of_key (a ∷ s) [] u v p q e = absurd (grind (arith, p, e))
job_of_key (a ∷ s) (b ∷ t) u v p q e = grind (arith, job_of_key s t u v p.1 q.1, e)

abbrev pub Distinct : List Text → Type 0
Distinct [] = Unit
Distinct (t ∷ ts) = All (λ u. t ≢ u) ts × Distinct ts

abbrev pub keys : List ShareRecord → List Text
keys [] = []
keys (r ∷ rs) = r.submission_key ∷ keys rs

-- The ids of the jobs that a history delivers.
abbrev pub job_ids : List Event → List Text
job_ids [] = []
job_ids (request req now current late ∷ es) = job_ids es
job_ids (deliver j ∷ es) = j.id ∷ job_ids es

-- No job arrives between the checks of a submission, and the miner does not subscribe again.
abbrev pub IsCalm : Event → Type 0
IsCalm (request req now current late) =
    (late ≡ []) × (text_eq req.method (codes "mining.subscribe") ≡ false)
IsCalm (deliver j) = Unit

-- A key that was handed over: of the current job only if it is in the list of the connection, and of
-- no job to come.
abbrev Known : Conn → List Text → Text → Type 0
Known c future key =
    (id : Text) × (rest : Text) × (key ≡ id ++ b'|' ∷ rest)
    × IsPlain id
    × (id ≡ c.current_job → member key c.submitted ≡ true)
    × All (λ u. id ≢ u) future

record Inv (c : Conn) (future : List Text) (log : List ShareRecord) : Type 0 where
  known : All (Known c future) (keys log)
  distinct : Distinct (keys log)
  plain : IsPlain c.current_job
  past : All (λ u. c.current_job ≢ u) future

-- A new job leaves no key of the current job.
Known-send :
    (j : Job) (c : Conn) (ids : List Text) (key : Text)
    → Known c (j.id ∷ ids) key
    → Known (send_job j c).0 ids key
unfolding send_job
Known-send j c ids key (id, rest, e, plain, seen, (other, later)) =
    (id, rest, e, plain, (λ k. absurd (other k)), later)

marked_lem : (b : Bool) {x : Bool} → x ≡ true → (if b then true else x) ≡ true
marked_lem true h = refl
marked_lem false h = h

Known-mark :
    (c : Conn) (ids : List Text) (new key : Text)
    → Known c ids key
    → Known (record c { submitted = new ∷ c.submitted }) ids key
unfolding member
Known-mark c ids new key (id, rest, e, plain, seen, later) =
    (id, rest, e, plain, (λ k. marked_lem (text_eq key new) (seen k)), later)

-- A key that is not in the list yet differs from every key that was handed over.
Known-fresh :
    (c : Conn) (ids : List Text) (w : Work) (key : Text)
    → IsPlain c.current_job
    → w.job_id ≡ c.current_job
    → member (submission_key w) c.submitted ≡ false
    → Known c ids key
    → submission_key w ≢ key
unfolding submission_key
Known-fresh c ids w key plain k new (id, rest, e, plain', seen, later) q =
    let same_job = job_of_key w.job_id id _ rest (rw k plain) plain' (q ∙ e) in
    ground (arith, ap (λ t. member t c.submitted) q, seen (sym same_job ∙ k), new)

module _ {S : Type 0} (store : ShareStore S) (cfg : DifficultyConfig) (rc : RetargetConfig)
    (validate : Option Job → Validator) where
  -- The property, of an outcome.
  abbrev Kept : List Text → Outcome (List ShareRecord × S) → Type 0
  Kept ids o = Inv o.conn ids o.store.0

  marked-Inv :
      (c : Conn) (ids : List Text) (key : Text) (log : List ShareRecord)
      → Inv c ids log
      → Inv (record c { submitted = key ∷ c.submitted }) ids log
  marked-Inv c ids key log h = record {
    known = All-weaken (Known c ids) _ (keys log) (λ k. Known-mark c ids key k) h.known;
    distinct = h.distinct;
    plain = h.plain;
    past = h.past;
  }

  -- The submission of `w` is handed over.
  handed-Inv :
      (c : Conn) (ids : List Text) (w : Work) (r : ShareRecord) (log : List ShareRecord)
      → Inv c ids log
      → w.job_id ≡ c.current_job
      → member (submission_key w) c.submitted ≡ false
      → r.submission_key ≡ submission_key w
      → Inv (record c { submitted = submission_key w ∷ c.submitted }) ids (r ∷ log)
  unfolding member submission_key
  handed-Inv c ids w r log h k new e =
      let m = marked-Inv c ids (submission_key w) log h in
      record {
        known = (
          (
            w.job_id,
            (w.extra_nonce2 ++ b'|' ∷ (w.n_time ++ b'|' ∷ w.nonce)),
            e,
            rw k h.plain,
            (λ same. rw (e, text_eq_refl (submission_key w)) refl),
            rw k h.past,
          ),
          m.known,
        );
        distinct = (
          All-weaken (Known c ids) (λ u. r.submission_key ≢ u) (keys log)
              (λ u known q. Known-fresh c ids w u h.plain k new known (sym e ∙ q)) h.known,
          h.distinct,
        );
        plain = h.plain;
        past = h.past;
      }

  retarget-Inv :
      (now : ℕ) (c : Conn) (ids : List Text) (log : List ShareRecord)
      → Inv c ids log
      → Inv (retarget cfg rc now c).0 ids log
  retarget-Inv now c ids log h =
      let (hex, worker, authorized, job, submitted) = retarget-Same cfg rc now c in
      record {
        known = All-weaken (Known c ids) _ (keys log) (λ key k. rw (job, submitted) k) h.known;
        distinct = h.distinct;
        plain = rw job h.plain;
        past = rw job h.past;
      }

  submit-Inv :
      (v : Validator) (id : Text) (params : Option Json) (now : ℕ) (c : Conn) (ids : List Text)
      (s : List ShareRecord × S)
      → Inv c ids s.0
      → Kept ids (handle_submit (recorded store) cfg rc v id params now [] c s)
  unfolding send_jobs
  submit-Inv v id params now c ids s h =
      elim (handle_submit_lem (recorded store) cfg rc v id params now [] c s) [
        | malformed bad e ↦ rw e h
        | locked_out out e ↦ rw e h
        | stale w p a why e ↦ rw e h
        | repeated w p k seen e ↦ rw e h
        | invalid w a er bad e ↦ rw e (marked-Inv c ids (submission_key w) s.0 h)
        | unrecorded w a good er bad e ↦ rw e (handed-Inv c ids w _ s.0 h a.current a.unseen refl)
        | stored w a good fine e ↦
            rw e (retarget-Inv now _ ids _ (handed-Inv c ids w _ s.0 h a.current a.unseen refl))
      ]

  request-Inv :
      (req : Request) (now : ℕ) (current : Option Job) (c : Conn) (ids : List Text)
      (s : List ShareRecord × S)
      → text_eq req.method (codes "mining.subscribe") ≡ false
      → Inv c ids s.0
      → Kept ids (handle_request (recorded store) cfg rc validate req now current [] c s)
  request-Inv req now current c ids s m h =
      request_cases (recorded store) cfg rc validate (Kept ids) req now current [] c s (λ sent. h)
        (λ n. ground (arith, m, n))
        (elim (handle_authorize_cases cfg req.id req.params c) [
          | inl e ↦ rw e h
          | inr (w, e) ↦
              rw e
                (record { known = h.known; distinct = h.distinct; plain = h.plain; past = h.past })
        ])
        (submit-Inv (validate current) req.id req.params now c ids s h)

  deliver-Inv :
      (j : Job) (c : Conn) (ids : List Text) (log : List ShareRecord)
      → IsPlain j.id
      → All (λ u. j.id ≢ u) ids
      → Inv c (j.id ∷ ids) log
      → Inv (send_job j c).0 ids log
  unfolding send_job
  deliver-Inv j c ids log plain later h = record {
    known =
        All-weaken (Known c (j.id ∷ ids)) _ (keys log) (λ key k. Known-send j c ids key k) h.known;
    distinct = h.distinct;
    plain = plain;
    past = later;
  }

  run-Inv :
      (es : List Event) (c : Conn) (s : List ShareRecord × S)
      → All IsCalm es
      → All IsPlain (job_ids es)
      → Distinct (job_ids es)
      → Inv c (job_ids es) s.0
      → Distinct (keys (run (recorded store) cfg rc validate es c s).1.0)
  unfolding run
  run-Inv [] c s calm plain ids h = h.distinct
  run-Inv (deliver j ∷ es) c s calm plain ids h =
      run-Inv es (send_job j c).0 s calm.1 plain.1 ids.1
        (deliver-Inv j c (job_ids es) s.0 plain.0 ids.0 h)
  run-Inv (request req now current late ∷ es) c s calm plain ids h =
      let o = handle_request (recorded store) cfg rc validate req now current late c s in
      run-Inv es o.conn o.store calm.1 plain ids
        (rw calm.0.0 (request-Inv req now current c (job_ids es) s calm.0.1 h))

  -- Over the life of a connection that does not subscribe again, no submission is handed to the
  -- share store twice, whatever else its miner sends, whenever jobs arrive between the requests, and
  -- however validator and store answer. Conditions: the ids of the jobs that arrive are distinct and
  -- without a separator, as is the id of the job the connection has, which does not come again.
  pub run-Distinct :
      (es : List Event) (c : Conn) (s : S)
      → All IsCalm es
      → All IsPlain (c.current_job ∷ job_ids es)
      → Distinct (c.current_job ∷ job_ids es)
      → Distinct (keys (run (recorded store) cfg rc validate es c ([], s)).1.0)
  run-Distinct es c s calm plain ids =
      run-Inv es c ([], s) calm plain.1 ids.1
        (record { known = tt; distinct = tt; plain = plain.0; past = ids.0 })

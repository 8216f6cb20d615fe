-- ===== src/Stratum/History/Diff.antt =====
-- What a connection hands to the share store over its life: the difficulties and the types.
use qbitx_pool.Base.{
  ℕ, ◌≡◌, refl, ◌∙◌, ◌⊎◌, inl, inr, Bool, true, false, Option, List, [], ◌∷◌, All, Text, codes,
  IsInt64, arith,
}
use qbitx_pool.Job.{Job}
use qbitx_pool.Accounting.Store.{ShareRecord, ShareStore}
use qbitx_pool.Stratum.{DifficultyConfig}
use qbitx_pool.Stratum.Bounds.{Sound, InRange, pick_start_diff-InRange}
use qbitx_pool.Stratum.Retarget.{retarget_lem}
use qbitx_pool.Stratum.Message.{Json}
use qbitx_pool.Stratum.Conn.{Conn, RetargetConfig, send_job, new_conn, retarget}
use qbitx_pool.Stratum.Submit.{Outcome, Validator, send_jobs, entry_type, handle_submit}
use qbitx_pool.Stratum.Submit.Branches.{
  malformed, locked_out, stale, repeated, invalid, unrecorded, stored, handle_submit_lem,
}
use qbitx_pool.Stratum.History.{Event, request, deliver, recorded, step, run}
use qbitx_pool.Stratum.History.Cases.{request_cases, handle_authorize_cases, handle_subscribe_cases}

-- A record that the table `shares` has no objection to: a difficulty in range, and one of the two
-- types.
abbrev pub Recordable : DifficultyConfig → ShareRecord → Type 0
Recordable cfg r =
    InRange cfg r.diff × ((r.share_type ≡ codes "share") ⊎ (r.share_type ≡ codes "block"))

abbrev pub Guarded : DifficultyConfig → Conn → Type 0
Guarded cfg c = (c.authorized ≡ false) ⊎ InRange cfg c.diff

abbrev pub Inv : DifficultyConfig → Conn → List ShareRecord → Type 0
Inv cfg c log = Guarded cfg c × All (Recordable cfg) log

send_jobs_diff :
    (js : List Job) (c : Conn)
    → ((send_jobs js c).0.authorized ≡ c.authorized) × ((send_jobs js c).0.diff ≡ c.diff)
unfolding send_jobs send_job
send_jobs_diff [] c = (refl, refl)
send_jobs_diff (j ∷ js) c = send_jobs_diff js (send_job j c).0

entry_type_cases : (b : Bool) → (entry_type b ≡ codes "share") ⊎ (entry_type b ≡ codes "block")
entry_type_cases true = inr refl
entry_type_cases false = inl refl

module _ {S : Type 0} (store : ShareStore S) (cfg : DifficultyConfig) (rc : RetargetConfig)
    (validate : Option Job → Validator) (sound : Sound cfg) (target : IsInt64 rc.target_time) where
  Guarded-moved : (js : List Job) (c : Conn) → Guarded cfg c → Guarded cfg (send_jobs js c).0
  Guarded-moved js c (inl out) = inl ((send_jobs_diff js c).0 ∙ out)
  Guarded-moved js c (inr d) = inr (rw (send_jobs_diff js c).1 d)

  InRange-moved :
      (js : List Job) (c : Conn) → InRange cfg c.diff → InRange cfg (send_jobs js c).0.diff
  InRange-moved js c d = rw (send_jobs_diff js c).1 d

  retarget-Guarded :
      (now : ℕ) (c : Conn) → InRange cfg c.diff → Guarded cfg (retarget cfg rc now c).0
  retarget-Guarded now c d = elim (retarget_lem cfg rc now sound target c d.is_finite).1 [
    | inl (none', e) ↦ inr (rw e d)
    | inr (some', d', small) ↦ inr d'
  ]

  in_range : (c : Conn) → Guarded cfg c → c.authorized ≡ true → InRange cfg c.diff
  in_range c (inl out) a = ground (arith, out, a)
  in_range c (inr d) a = d

  submit-Inv :
      (v : Validator) (id : Text) (params : Option Json) (now : ℕ) (late : List Job) (c : Conn)
      (s : List ShareRecord × S)
      → Inv cfg c s.0
      → (let o = handle_submit (recorded store) cfg rc v id params now late c s in
          Inv cfg o.conn o.store.0)
  submit-Inv v id params now late c s (g, log) =
      elim (handle_submit_lem (recorded store) cfg rc v id params now late c s) [
        | malformed bad e ↦ rw e (g, log)
        | locked_out out e ↦ rw e (g, log)
        | stale w p a why e ↦ rw e (g, log)
        | repeated w p k seen e ↦ rw e (Guarded-moved late c g, log)
        | invalid w a er bad e ↦ rw e (Guarded-moved late c g, log)
        | unrecorded w a good er bad e ↦
            rw e (Guarded-moved late c g, ((in_range c g a.authorized, entry_type_cases _), log))
        | stored w a good fine e ↦ rw e (
          retarget-Guarded now _ (InRange-moved late c (in_range c g a.authorized)),
          ((in_range c g a.authorized, entry_type_cases _), log),
        )
      ]

  -- The property, of an outcome.
  abbrev Kept : Outcome (List ShareRecord × S) → Type 0
  Kept o = Inv cfg o.conn o.store.0

  pub step-Inv :
      (e : Event) (c : Conn) (s : List ShareRecord × S)
      → Inv cfg c s.0
      → Kept (step (recorded store) cfg rc validate e c s)
  unfolding step send_job
  step-Inv (deliver j) c s h = h
  step-Inv (request req now current late) c s (g, log) =
      request_cases (recorded store) cfg rc validate Kept req now current late c s
        (λ sent. (g, log))
        (λ m. elim (handle_subscribe_cases req.id current c) [
          | inl e ↦ rw e (g, log)
          | inr (j, e) ↦ rw e (g, log)
        ])
        (elim (handle_authorize_cases cfg req.id req.params c) [
          | inl e ↦ rw e (g, log)
          | inr (w, e) ↦ rw e (inr (pick_start_diff-InRange cfg w sound), log)
        ])
        (submit-Inv (validate current) req.id req.params now late c s (g, log))

  run-Inv :
      (es : List Event) (c : Conn) (s : List ShareRecord × S)
      → Inv cfg c s.0
      → All (Recordable cfg) (run (recorded store) cfg rc validate es c s).1.0
  unfolding run
  run-Inv [] c s h = h.1
  run-Inv (e ∷ es) c s h =
      let o = step (recorded store) cfg rc validate e c s in
      run-Inv es o.conn o.store (step-Inv e c s h)

  -- Over the whole life of a connection, whatever its miner sends, whenever jobs arrive, and however
  -- validator and store answer: every share that is handed to the store has a finite difficulty
  -- within the configured bounds, and the type of a share or of a block. Conditions: the difficulty
  -- configuration is sound and the target time is an int64.
  pub run-Recordable :
      (es : List Event) (en1_hex : Text) (s : S)
      → All
          (Recordable cfg)
          (run (recorded store) cfg rc validate es (new_conn cfg en1_hex) ([], s)).1.0
  run-Recordable es en1_hex s = run-Inv es (new_conn cfg en1_hex) ([], s) (inl refl, tt)

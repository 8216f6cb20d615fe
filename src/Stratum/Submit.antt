-- ===== src/Stratum/Submit.antt =====
-- handleSubmit of internal/stratum/server.go, over any validator and any share store. It gives the
-- lock of the connection back between reading it and markSubmitted, so jobs that are broadcast in
-- between arrive there: they are an argument.
pub mod Branches
pub mod Accepted
use qbitx_pool.Base.{
  ℕ, if◌then◌else◌, Bool, not, ◌||◌, Option, none, some, List, [], ◌∷◌, ◌++◌, Text, codes, text_eq,
}
use qbitx_pool.Float64.{Float64}
use qbitx_pool.Job.{Job}
use qbitx_pool.Share.{Submission, ShareResult, ShareError}
use qbitx_pool.Accounting.Store.{ShareRecord, ShareStore, StoreError}
use qbitx_pool.Stratum.{DifficultyConfig}
use qbitx_pool.Stratum.Message.{
  Json, string_params, Refusal, bad_params, unauthorized, stale_job, duplicate_share, invalid_share,
  accounting_unavailable, done, Message, result, set_difficulty, send_error,
}
use qbitx_pool.Stratum.Conn.{Conn, RetargetConfig, send_job, mark_submitted, retarget}

-- The connection and the store afterwards, the lines that are sent, and the blocks that the
-- validator hands to the daemon.
pub record Outcome (S : Type 0) : Type 0 where
  pub conn : Conn
  pub store : S
  pub sent : List Message
  pub blocks : List Text

-- A validator: the result, and the blocks that are submitted.
abbrev pub Validator : Type 0
Validator = Submission → ShareResult × List Text

-- The parameters behind the name of the worker: job, extra nonce, time and nonce.
pub record Work : Type 0 where
  pub job_id : Text
  pub extra_nonce2 : Text
  pub n_time : Text
  pub nonce : Text

abbrev pub work_of : List Text → Option Work
work_of (p ∷ job_id ∷ extra_nonce2 ∷ n_time ∷ nonce ∷ rest) =
    some (record { job_id = job_id; extra_nonce2 = extra_nonce2; n_time = n_time; nonce = nonce })
work_of _ = none

abbrev pub work_params : Option (List Text) → Option Work
work_params none = none
work_params (some params) = work_of params

-- `submissionKey`, with `|` between its parts.
unfoldable pub submission_key : Work → Text
submission_key w = w.job_id ++ b'|' ∷ (w.extra_nonce2 ++ b'|' ∷ (w.n_time ++ b'|' ∷ w.nonce))

abbrev pub submission_of : Conn → Work → Submission
submission_of c w = record {
  extra_nonce1 = c.en1_hex;
  extra_nonce2 = w.extra_nonce2;
  n_time = w.n_time;
  nonce = w.nonce;
}

-- The jobs that are broadcast.
unfoldable pub send_jobs : List Job → Conn → Conn × List Message
unfolding send_job
send_jobs [] c = (c, [])
send_jobs (j ∷ js) c =
    let first = send_job j c in let rest = send_jobs js first.0 in (rest.0, first.1 ++ rest.1)

abbrev pub entry_type : Bool → Text
entry_type is_block = if is_block then codes "block" else codes "share"

-- What is stored: the worker and the difficulty are those that were read first.
abbrev pub share_record : Conn → Text → ShareResult → ShareRecord
share_record read key r = record {
  worker = read.worker;
  diff = read.diff;
  share_type = entry_type r.is_block;
  submission_key = key;
  block_hash = r.hash;
}

abbrev pub change_message : Option Float64 → List Message
change_message none = []
change_message (some d) = set_difficulty d ∷ []

abbrev pub refuse : {S : Type 0} → Text → Refusal → Conn → S → Outcome S
refuse id e c s = record { conn = c; store = s; sent = send_error id e ∷ []; blocks = [] }

-- The lines of the broadcast come first.
abbrev pub after_lines : {S : Type 0} → List Message → Outcome S → Outcome S
after_lines lines o = record o { sent = lines ++ o.sent }

module _ {S : Type 0} (store : ShareStore S) (cfg : DifficultyConfig) (rc : RetargetConfig) where
  -- The answer to what the store says.
  abbrev pub settle_share : Text → ℕ → Conn → List Text → S × Option StoreError → Outcome S
  unfolding retarget
  settle_share id now c blocks (s, some e) = record {
    conn = c;
    store = s;
    sent = send_error id accounting_unavailable ∷ [];
    blocks = blocks;
  }
  settle_share id now c blocks (s, none) =
      let adjusted = retarget cfg rc now c in
      record {
        conn = adjusted.0;
        store = s;
        sent = result id done ∷ change_message adjusted.1;
        blocks = blocks;
      }

  -- `read` is the connection as it was read, `c` as it is now.
  abbrev pub record_share :
      Text → ℕ → Text → Conn → Conn → S → Option ShareError → ShareResult × List Text → Outcome S
  record_share id now key read c s (some e) (r, blocks) = record {
    conn = c;
    store = s;
    sent = send_error id (invalid_share e) ∷ [];
    blocks = blocks;
  }
  record_share id now key read c s none (r, blocks) =
      settle_share id now c blocks (store.insert_accepted_share (share_record read key r) s)

  abbrev pub judge_work : Validator → Text → ℕ → Work → Conn → Option Conn → Conn → S → Outcome S
  judge_work validate id now w read none c s = refuse id duplicate_share c s
  judge_work validate id now w read (some marked) c s =
      let judged = validate (submission_of read w) in
      record_share id now (submission_key w) read marked s judged.0.error judged

  abbrev pub submit_work : Validator → Text → Option Work → ℕ → List Job → Conn → S → Outcome S
  unfolding mark_submitted send_jobs submission_key
  submit_work validate id none now late c s = refuse id bad_params c s
  submit_work validate id (some w) now late c s =
      if not c.authorized
      then refuse id unauthorized c s
      else if text_eq c.current_job [] || not (text_eq w.job_id c.current_job)
      then refuse id stale_job c s
      else let moved = send_jobs late c in
        after_lines moved.1
          (judge_work validate id now w c (mark_submitted (submission_key w) moved.0) moved.0 s)

  unfoldable pub handle_submit :
      Validator → Text → Option Json → ℕ → List Job → Conn → S → Outcome S
  unfolding mark_submitted send_jobs retarget submission_key string_params
  handle_submit validate id params now late c s =
      submit_work validate id (work_params (string_params params)) now late c s

-- ===== src/Stratum/History.antt =====
-- handleRequest of internal/stratum/server.go, and the life of one connection: the requests that its
-- miner sends and the jobs that broadcastJob delivers, in any order.
pub mod Cases
pub mod Diff
pub mod Once
pub mod Jobs
pub mod Again
use qbitx_pool.Base.{ℕ, if◌then◌else◌, Option, none, some, List, [], ◌∷◌, Text, codes, text_eq}
use qbitx_pool.Job.{Job}
use qbitx_pool.Accounting.Store.{ShareRecord, ShareStore, StoreError}
use qbitx_pool.Stratum.{DifficultyConfig}
use qbitx_pool.Stratum.Message.{Request, unknown_method, done, Message, result, send_error}
use qbitx_pool.Stratum.Conn.{
  Conn, RetargetConfig, handle_configure, handle_subscribe, handle_authorize, send_job,
}
use qbitx_pool.Stratum.Submit.{Outcome, Validator, handle_submit}

-- What meets a connection. A request comes with the time, the job that the job maker has when the
-- handler asks for it, and the jobs that are broadcast while mining.submit is handled. To the other
-- handlers a broadcast comes before or after; as the job of mining.subscribe is any, it may be older
-- than the last one delivered.
pub data Event : Type 0 where
  request : Request → ℕ → Option Job → List Job → Event
  deliver : Job → Event

-- A store that also keeps what it was asked to insert, the newest first, with the answers of any
-- other store.
abbrev pub recorded : {S : Type 0} → ShareStore S → ShareStore (List ShareRecord × S)
recorded store = record {
  insert_accepted_share =
      λ r k. let answer = store.insert_accepted_share r k.1 in ((r ∷ k.0, answer.0), answer.1);
}

abbrev pub with_store : {S : Type 0} → S → Conn × List Message → Outcome S
with_store s (c, sent) = record { conn = c; store = s; sent = sent; blocks = [] }

module _ {S : Type 0} (store : ShareStore S) (cfg : DifficultyConfig) (rc : RetargetConfig)
    (validate : Option Job → Validator) where
  unfoldable pub handle_request : Request → ℕ → Option Job → List Job → Conn → S → Outcome S
  unfolding handle_configure handle_subscribe handle_authorize handle_submit
  handle_request req now current late c s =
      if text_eq req.method (codes "mining.configure")
      then with_store s (c, handle_configure req.id req.params)
      else if text_eq req.method (codes "mining.subscribe")
      then with_store s (handle_subscribe req.id current c)
      else if text_eq req.method (codes "mining.authorize")
      then with_store s (handle_authorize cfg req.id req.params c)
      else if text_eq req.method (codes "mining.submit")
      then handle_submit store cfg rc (validate current) req.id req.params now late c s
      else if text_eq req.method (codes "mining.extranonce.subscribe")
      then with_store s (c, result req.id done ∷ [])
      else with_store s (c, send_error req.id unknown_method ∷ [])

  unfoldable pub step : Event → Conn → S → Outcome S
  unfolding handle_request send_job
  step (request req now current late) c s = handle_request req now current late c s
  step (deliver j) c s = with_store s (send_job j c)

  unfoldable pub run : List Event → Conn → S → Conn × S
  unfolding step
  run [] c s = (c, s)
  run (e ∷ es) c s = let o = step e c s in run es o.conn o.store

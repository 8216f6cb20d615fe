-- ===== src/Stratum/ServerTests.antt =====
-- The theorems on connections and the server at concrete inputs, and a session of a miner.
use qbitx_pool.Base.{
  ◌*◌, ◌^◌, ◌*ℤ◌, replicate, ◌≡◌, refl, true, false, Option, none, some, List, [], ◌∷◌, All, Text,
  codes, text_eq, pos, arith,
}
use qbitx_pool.Float64.{one_f, of_ratio, operations}
use qbitx_pool.Float64.Bounds.{IsFinite}
use qbitx_pool.Job.{Job}
use qbitx_pool.Accounting.Database.{share, exists}
use qbitx_pool.Accounting.Store.Unique.{has_key}
use qbitx_pool.Stratum.Submit.Accepted.{handle_submit_clash}
use qbitx_pool.Accounting.Store.{Postgres, postgres_store, insert_accepted_share}
use qbitx_pool.Stratum.{DifficultyConfig, pick_start_diff, clamp_diff}
use qbitx_pool.Stratum.Bounds.{Sound}
use qbitx_pool.Stratum.Retarget.{Retargeted, retarget_lem}
use qbitx_pool.Stratum.Message.{
  Json, Jsons, text, array, nil, cons, Request, string_params, send_error, accounting_unavailable,
}
use qbitx_pool.Stratum.Conn.{
  Conn, RetargetConfig, new_conn, retarget, keep_after, handle_subscribe, member,
}
use qbitx_pool.Stratum.Submit.{
  Validator, Work, handle_submit, work_params, send_jobs, submission_key,
}
use qbitx_pool.Stratum.Submit.Branches.{Admitted, Handled, handle_submit_lem}
use qbitx_pool.Stratum.History.{Event, request, deliver, recorded, run}
use qbitx_pool.Stratum.History.Diff.{Recordable, run-Recordable}
use qbitx_pool.Stratum.History.Once.{Distinct, keys, IsCalm, IsPlain, job_ids, run-Distinct}
use qbitx_pool.Stratum.History.Again.{offered, offered-handle_subscribe}
use qbitx_pool.Stratum.Server.{Step, accept, close, serve, broadcast, server_run, new_server}
use qbitx_pool.Stratum.Server.Numbers.{hexes, IsNonce, server_run-Distinct}

abbrev pub cfg : DifficultyConfig
cfg = record {
  start = of_ratio 4 1;
  min = of_ratio 1 1;
  max = of_ratio 64 1;
  gpu_start = of_ratio 10 1;
  asic_start = of_ratio 1000 1;
}

abbrev pub rc : RetargetConfig
rc = record { target_time = pos 10; retarget_interval = pos 30 }

cfg-Sound : Sound cfg
unfolding operations
cfg-Sound = record {
  start = tt;
  gpu_start = tt;
  asic_start = tt;
  min_finite = tt;
  max_finite = tt;
  min_positive = refl;
  max_positive = refl;
  ordered = refl;
}

-- A validator that takes every submission as a share.
abbrev pub lenient : Validator
lenient sub =
    (record { error = none; is_block = false; hash = sub.nonce; diff = one_f; height = pos 0 }, [])

abbrev pub database : Postgres
database = record { pool_id = codes "main"; shares = []; next_share = 1; reachable = true }

abbrev pub job : Text → Job
job id = record {
  id = id;
  prev_hash = [];
  coinbase1 = [];
  coinbase2 = [];
  merkle_branch = [];
  version = [];
  bits = [];
  time = [];
  clean_jobs = true;
  height = pos 1;
  coinbase_value = pos 0;
  target = [];
  prev_hash_bytes = [];
  bits_uint = 0;
  version_int = pos 0;
  time_uint = 0;
  tx_hashes = [];
  raw_tx_data = [];
}

abbrev texts : List Text → Option Json
texts l = some (array (all l))
  where
    all : List Text → Jsons
    all [] = nil
    all (s ∷ ss) = cons (text s) (all ss)

abbrev submit_params : Option Json
submit_params =
    texts (codes "w" ∷ codes "1" ∷ codes "00000000" ∷ codes "65000000" ∷ codes "0000002a" ∷ [])

abbrev pub submit : Request
submit = record { id = codes "4"; method = codes "mining.submit"; params = submit_params }

abbrev authorize : Request
authorize = record {
  id = codes "2";
  method = codes "mining.authorize";
  params = texts (codes "wallet.gpu" ∷ codes "x" ∷ []);
}

abbrev fresh : Conn
fresh = new_conn cfg (codes "00000001")

abbrev pub miner : Conn
miner = record fresh {
  worker = codes "wallet.gpu";
  authorized = true;
  diff = of_ratio 10 1;
  current_job = codes "1";
}

abbrev work : Work
work = record {
  job_id = codes "1";
  extra_nonce2 = codes "00000000";
  n_time = codes "65000000";
  nonce = codes "0000002a";
}

abbrev busy : Conn
busy = record miner { submitted = submission_key work ∷ [] }

-- A miner's session: authorize, a job, a share, the same share again, another job, a stale share.
abbrev session : List Event
session =
    request authorize 100 none []
    ∷ deliver (job (codes "1"))
    ∷ request submit 200 none []
    ∷ request submit 300 none []
    ∷ deliver (job (codes "2"))
    ∷ request submit 400 none []
    ∷ []

session_stores :
    keys (run (recorded postgres_store) cfg rc (λ o. lenient) session fresh ([], database)).1.0
    ≡ submission_key work ∷ []
unfolding run submission_key operations insert_accepted_share pick_start_diff text_eq
session_stores = refl

handle_submit_lem_example :
    Handled postgres_store cfg rc lenient
      (codes "4")
      submit_params
      200
      []
      miner
      database
      (handle_submit postgres_store cfg rc lenient (codes "4") submit_params 200 [] miner database)
handle_submit_lem_example =
    handle_submit_lem postgres_store cfg rc lenient (codes "4") submit_params 200 [] miner database

abbrev waiting : Conn
waiting = record miner { last_adjust = some 0; accepted_at = 10 ∷ 20 ∷ [] }

miner-IsFinite : IsFinite waiting.diff
unfolding operations
miner-IsFinite = tt

retarget_lem_example : Retargeted cfg waiting (retarget cfg rc (40 * 10 ^ 9) waiting)
retarget_lem_example =
    retarget_lem cfg rc (40 * 10 ^ 9) cfg-Sound (omega arith) waiting miner-IsFinite

-- Twelve shares in half a minute where three are wanted: four times the difficulty.
speed_up :
    (retarget cfg rc
      (40 * 10 ^ 9)
      (record miner { last_adjust = some 0; accepted_at = replicate 11 (20 * 10 ^ 9) })).1
    ≡ some (of_ratio 40 1)
unfolding retarget keep_after clamp_diff operations ◌*ℤ◌
speed_up = refl

run-Recordable_example :
    All
      (Recordable cfg)
      (run (recorded postgres_store) cfg rc (λ o. lenient) session fresh ([], database)).1.0
run-Recordable_example =
    run-Recordable postgres_store cfg rc (λ o. lenient) cfg-Sound (omega arith) session
      (codes "00000001") database

session-IsCalm : All IsCalm session
unfolding text_eq
session-IsCalm = ((refl, refl), (tt, ((refl, refl), ((refl, refl), (tt, ((refl, refl), tt))))))

ids-IsPlain : All IsPlain ([] ∷ job_ids session)
ids-IsPlain = (tt, ((refl, tt), ((refl, tt), tt)))

ids-Distinct : Distinct ([] ∷ job_ids session)
ids-Distinct = (
  ((λ e. ground (arith, e)), ((λ e. ground (arith, e)), tt)),
  (((λ e. ground (arith, e)), tt), (tt, tt)),
)

run-Distinct_example :
    Distinct
      (keys (run (recorded postgres_store) cfg rc (λ o. lenient) session fresh ([], database)).1.0)
run-Distinct_example =
    run-Distinct postgres_store cfg rc (λ o. lenient) session fresh database session-IsCalm
      ids-IsPlain ids-Distinct

parsed : work_params (string_params submit_params) ≡ some work
unfolding string_params
parsed = refl

listed : member (submission_key work) busy.submitted ≡ true
unfolding member text_eq submission_key
listed = refl

offered-handle_subscribe_example :
    (offered postgres_store cfg rc lenient (codes "4") submit_params 300 work parsed busy database
      ≡ [])
    × (offered postgres_store cfg rc lenient
          (codes "4")
          submit_params
          300
          work
          parsed
          (handle_subscribe (codes "3") (some (job (codes "1"))) busy).0
          database
        ≡ submission_key work ∷ [])
offered-handle_subscribe_example =
    offered-handle_subscribe postgres_store cfg rc lenient (codes "4") submit_params 300 work parsed
      busy database (job (codes "1")) (codes "3") refl refl (λ e. ground (arith, e)) refl listed
      refl

abbrev steps : List Step
steps =
    accept
    ∷ accept
    ∷ serve 1 authorize 100 none []
    ∷ broadcast (job (codes "1"))
    ∷ close 1
    ∷ accept
    ∷ []

server_run-Distinct_example :
    (let conns =
        (server_run postgres_store cfg rc (λ o. lenient) steps (new_server database)).conns in
      Distinct (hexes conns) × All IsNonce (hexes conns))
server_run-Distinct_example =
    server_run-Distinct postgres_store cfg rc (λ o. lenient) steps database (omega arith)

-- Another connection has stored a share with the same key.
abbrev taken : Postgres
taken = record database {
  shares =
      record {
        id = 1;
        pool_id = codes "main";
        worker = codes "other";
        diff = of_ratio 10 1;
        share_type = share;
        submission_key = submission_key work;
        block_hash = some (codes "00");
      }
      ∷ [];
  next_share = 2;
}

key_taken : exists (has_key (codes "main") (submission_key work)) taken.shares ≡ true
unfolding exists text_eq submission_key
key_taken = refl

admitted : Admitted postgres_store cfg rc lenient (codes "4") submit_params 200 [] miner taken work
unfolding member send_jobs
admitted = record {
  parsed = parsed;
  authorized = refl;
  has_job = λ e. ground (arith, e);
  current = refl;
  unseen = refl;
}

handle_submit_clash_example :
    (let o =
        handle_submit postgres_store cfg rc lenient (codes "4") submit_params 200 [] miner taken in
      (o.sent ≡ send_error (codes "4") accounting_unavailable ∷ [])
      × (o.store.shares ≡ taken.shares))
handle_submit_clash_example =
    handle_submit_clash cfg rc lenient (codes "4") submit_params 200 miner taken work admitted refl
      key_taken

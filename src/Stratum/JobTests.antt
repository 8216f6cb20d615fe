-- ===== src/Stratum/JobTests.antt =====
-- A connection that is served by the job maker, at concrete inputs.
use qbitx_pool.Base.{
  ◌^◌, ◌<◌, ◌≡◌, refl, none, some, List, [], ◌∷◌, replicate, codes, pos, arith, All, text_eq,
}
use qbitx_pool.Float64.{zero_f}
use qbitx_pool.Hex.{decode, encode}
use qbitx_pool.Mining.Merkle.{hash_to_string}
use qbitx_pool.Mining.Reverse.{reverse_bytes}
use qbitx_pool.Job.Template.{BlockTemplate, CoinbaseConfig, job_id}
use qbitx_pool.Job.Maker.{new_maker, MakerStep, polled, subscribed, received, maker_run}
use qbitx_pool.Job.Maker.Channels.{ids, taken}
use qbitx_pool.Accounting.Store.{postgres_store}
use qbitx_pool.Stratum.History.{Event, request, deliver, recorded, run}
use qbitx_pool.Stratum.History.Once.{Distinct, keys, IsCalm}
use qbitx_pool.Stratum.History.Jobs.{run_maker-Distinct}
use qbitx_pool.Stratum.ServerTests.{cfg, rc, lenient, database, job, submit, miner}

abbrev coinbase : CoinbaseConfig
coinbase = record {
  address = codes "1BoatSLRHtKNngkdXEeobR76b53LETtpyT";
  tag = codes "/pool/";
  payout_spk_hex = [];
  developer_fee_percent = zero_f;
  developer_fee_address = [];
}

abbrev template : BlockTemplate
template = record {
  version = pos 0x20000000;
  previous_block_hash = hash_to_string (1 ∷ replicate 31 0);
  transactions = [];
  coinbase_value = pos 5000000000;
  target = [];
  cur_time = pos 1700000000;
  bits = codes "1d00ffff";
  height = pos 100;
}

abbrev steps : List MakerStep
steps =
    subscribed
    ∷ polled (some template)
    ∷ received 0
    ∷ polled none
    ∷ polled (some template)
    ∷ received 0
    ∷ []

few : (maker_run coinbase steps new_maker).seq < 16 ^ 16
unfolding maker_run hash_to_string decode encode reverse_bytes
few = omega arith

jobs_taken : ids (taken coinbase 0 steps new_maker) ≡ codes "1" ∷ codes "2" ∷ []
unfolding maker_run job_id text_eq hash_to_string decode encode reverse_bytes
jobs_taken = refl

-- A share for the first job, the same again, and once more after the second job.
abbrev session : List Event
session =
    request submit 200 none []
    ∷ request submit 300 none []
    ∷ deliver (job (codes "2"))
    ∷ request submit 400 none []
    ∷ []

session-IsCalm : All IsCalm session
unfolding text_eq
session-IsCalm = ((refl, refl), ((refl, refl), (tt, ((refl, refl), tt))))

run_maker-Distinct_example :
    Distinct
      (keys (run (recorded postgres_store) cfg rc (λ o. lenient) session miner ([], database)).1.0)
run_maker-Distinct_example =
    run_maker-Distinct postgres_store cfg rc (λ o. lenient) coinbase 0 steps session miner database
      [] [] few jobs_taken session-IsCalm

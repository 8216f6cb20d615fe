-- ===== src/Job/Maker.antt =====
-- The Maker of internal/job/job.go: the loop of Run, which polls for templates, and the channels of its
-- subscribers. The numbers of jobs are below 2^63.
pub mod Ids
pub mod Channels
pub mod Clean
use qbitx_pool.Job.Template.{BlockTemplate, CoinbaseConfig, BuildError, job_id, build_job}
use qbitx_pool.Base.{
  ℕ, zero, suc, ◌+◌, ◌-◌, ◌*◌, ◌/◌, ◌%◌, ◌^◌, ltb, leb, ◌==◌, if◌then◌else◌, Bool, true, false, not,
  ◌&&◌, ◌||◌, Option, none, some, List, [], ◌∷◌, ◌++◌, map, length, Text, text_eq, ℤ, pattern64,
}
use qbitx_pool.Base.Results.{Result, ok, err, ◌>>=◌, map_err}
use qbitx_pool.Float64.{Float64}
use qbitx_pool.Hex
use qbitx_pool.Hex.{HexError, digit, nibble, digits32}
use qbitx_pool.Mining.Coinbase.{CoinbaseArgs, build_coinbase_tx}
use qbitx_pool.Mining.Merkle.{HashError, hex_to_hash32, hex_to_hash32_rev, merkle_branch}
use qbitx_pool.Job.{Job}

-- The maker: a channel is the jobs in it, the oldest first; `last_prev` is the variable of Run.
pub record Maker : Type 0 where
  pub current : Option Job
  pub seq : ℕ
  pub subs : List (List Job)
  pub last_prev : Text

abbrev pub new_maker : Maker
new_maker = record { current = none; seq = 0; subs = []; last_prev = [] }

-- The capacity of a channel.
abbrev pub capacity : ℕ
capacity = 4

unfoldable pub subscribe : Maker → Maker
subscribe m = record m { subs = m.subs ++ [] ∷ [] }

-- A send that does not wait: a full channel takes nothing.
abbrev pub send : Job → List Job → List Job
send j ch = if ltb (length ch) capacity then ch ++ j ∷ [] else ch

-- notify
unfoldable pub notify : Job → List (List Job) → List (List Job)
notify j [] = []
notify j (ch ∷ chs) = send j ch ∷ notify j chs

abbrev pub publish : Maker → Result BuildError Job → Maker
unfolding notify
publish m (err e) = m
publish m (ok j) = record m { current = some j; subs = notify j m.subs }

-- One round of Run, with the answer to getblocktemplate, which is none after an error.
unfoldable pub poll : CoinbaseConfig → Option BlockTemplate → Maker → Maker
unfolding build_job job_id notify
poll cfg none m = m
poll cfg (some tpl) m =
    let clean = not (text_eq tpl.previous_block_hash m.last_prev) in
    let number = m.seq + 1 in
    publish (record m { last_prev = tpl.previous_block_hash; seq = number })
      (build_job cfg (job_id number) tpl clean)

-- What happens to the maker: a round, a new subscriber, or a subscriber that takes the oldest job of
-- its channel.
pub data MakerStep : Type 0 where
  polled : Option BlockTemplate → MakerStep
  subscribed : MakerStep
  received : ℕ → MakerStep

abbrev pub rest_of : List Job → List Job
rest_of [] = []
rest_of (j ∷ js) = js

unfoldable pub receive : ℕ → List (List Job) → List (List Job)
receive n [] = []
receive zero (ch ∷ chs) = rest_of ch ∷ chs
receive (suc n) (ch ∷ chs) = ch ∷ receive n chs

unfoldable pub maker_step : CoinbaseConfig → MakerStep → Maker → Maker
unfolding poll subscribe receive
maker_step cfg (polled answer) m = poll cfg answer m
maker_step cfg subscribed m = subscribe m
maker_step cfg (received n) m = record m { subs = receive n m.subs }

unfoldable pub maker_run : CoinbaseConfig → List MakerStep → Maker → Maker
unfolding maker_step
maker_run cfg [] m = m
maker_run cfg (s ∷ ss) m = maker_run cfg ss (maker_step cfg s m)

-- ===== src/Accounting/StoreTests.antt =====
-- The theorems on the share store, the migrations and the payments through the daemon's client at
-- concrete inputs.
use qbitx_pool.Base.{
  ◌≡◌, refl, Bool, true, false, none, some, List, [], ◌∷◌, map, Text, codes, text_eq, pos,
}
use qbitx_pool.Base.Results.{ok}
use qbitx_pool.Float64.{one_f, zero_f, operations}
use qbitx_pool.Daemon.{Client, CallError, first_invalid}
use qbitx_pool.Accounting.Database.{Database}
use qbitx_pool.Accounting.Session.{World}
use qbitx_pool.Accounting.Engine.{Engine}
use qbitx_pool.Accounting.Payout.{coin_amount, due_balances, try_send_payout_batch}
use qbitx_pool.Accounting.Payout.Blocked.{Fails, sender_of, try_send_payout_batch_blocked}
use qbitx_pool.Accounting.Store.{ShareRecord, Postgres, insert_accepted_share}
use qbitx_pool.Accounting.Store.Unique.{Inserted, insert_accepted_share_lem}
use qbitx_pool.Accounting.Migrate.{Schema, Source, run_migrations}
use qbitx_pool.Accounting.Migrate.Applied.{Migrated, run_migrations_lem}
use qbitx_pool.Accounting.Migrate.Again.{run_migrations_again}

abbrev store : Postgres
store = record { pool_id = codes "p"; shares = []; next_share = 1; reachable = true }

abbrev found : ShareRecord
found = record {
  worker = codes "a.rig";
  diff = one_f;
  share_type = codes "block";
  submission_key = codes "1|00|00|00";
  block_hash = codes "h";
}

insert_accepted_share_lem_example : Inserted found store (insert_accepted_share found store)
insert_accepted_share_lem_example = insert_accepted_share_lem found store tt

-- The second of two shares with one key is refused.
twice :
    (insert_accepted_share found (insert_accepted_share found store).0).0.shares
    ≡ (insert_accepted_share found store).0.shares
unfolding insert_accepted_share operations text_eq
twice = refl

-- A directory with two scripts, a text and a folder; a script adds its own text.
abbrev scripts : Source (List Text)
scripts = record {
  entries = some (
      record { name = codes "0002.sql"; is_dir = false }
      ∷ record { name = codes "notes.txt"; is_dir = false }
      ∷ record { name = codes "0001.SQL"; is_dir = false }
      ∷ record { name = codes "old.sql"; is_dir = true }
      ∷ []);
  read = λ name. some name;
  exec = λ sql d. some (sql ∷ d);
}

abbrev empty : List Bool → Schema (List Text)
empty faults = record { versions = []; contents = []; faults = faults }

both :
    (run_migrations (codes "db") (codes "dir") scripts (empty [])).1.versions
    ≡ codes "0001.SQL" ∷ codes "0002.sql" ∷ []
unfolding run_migrations text_eq
both = refl

succeeds : (run_migrations (codes "db") (codes "dir") scripts (empty [])).0 ≡ ok tt
unfolding run_migrations text_eq
succeeds = refl

run_migrations_lem_example : Migrated scripts [] [] (
    run_migrations
      (codes "db")
      (codes "dir")
      scripts
      (empty (false ∷ false ∷ false ∷ false ∷ false ∷ false ∷ true ∷ [])))
run_migrations_lem_example =
    run_migrations_lem scripts (codes "db") (codes "dir")
      (empty (false ∷ false ∷ false ∷ false ∷ false ∷ false ∷ true ∷ []))

run_migrations_again_example :
    (let first = run_migrations (codes "db") (codes "dir") scripts (empty []) in
      let second = run_migrations (codes "db") (codes "dir") scripts first.1 in
      (second.1.versions ≡ first.1.versions) × (second.1.contents ≡ first.1.contents))
run_migrations_again_example =
    run_migrations_again scripts (codes "db") (codes "dir") (empty []) succeeds

-- Two balances that are due; the second is of a worker whose name is no address.
abbrev db : Database
db = record {
  shares = [];
  block_states = [];
  settlements = [];
  balances =
      record {
        pool_id = codes "p";
        worker = codes "1BoatSLRHtKNngkdXEeobR76b53LETtpyT";
        amount_sat = 500;
      }
      ∷ record { pool_id = codes "p"; worker = codes "rig"; amount_sat = 400 }
      ∷ [];
  batches = [];
  items = [];
  next_batch = 1;
}

abbrev world : World
world = record { db = db; work = db; rows_open = false; faults = [] }

abbrev client : Client
client = record { next_id = 0; requests = [] }

abbrev message : CallError → Text
message e = codes "refused"

abbrev engine : Engine
engine = record {
  pool_id = codes "p";
  cfg = record {
    reward = pos 1000;
    developer_fee_percent = zero_f;
    pool_fee_percent = zero_f;
    scheme = codes "lprop";
    min_payout_sat = pos 10;
    block_maturity = pos 100;
  };
  sender = sender_of message (λ r. none) client;
  total_order = λ m. m;
  sum_order = λ m. m;
  share_order = λ m. m;
  pipelined = true;
}

one_bad :
    first_invalid (map coin_amount (due_balances (codes "p") (pos 10) db)) ≡ some (codes "rig")
unfolding first_invalid due_balances text_eq
one_bad = refl

try_send_payout_batch_blocked_example : Fails (try_send_payout_batch engine world)
try_send_payout_batch_blocked_example =
    try_send_payout_batch_blocked engine message (λ r. none) client world (codes "rig") refl one_bad

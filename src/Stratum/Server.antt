-- ===== src/Stratum/Server.antt =====
-- The server of internal/stratum/server.go: the connections that are open, each at its number, the
-- numbering of handleConn, and the broadcast of jobs. Network errors end a connection; what cannot
-- be parsed as a request is read over and changes nothing.
pub mod Table
pub mod Numbers
use qbitx_pool.Base.{
  ℕ, ◌+◌, ◌%◌, ◌^◌, ◌==◌, if◌then◌else◌, Option, none, some, List, [], ◌∷◌, ◌++◌, Text,
}
use qbitx_pool.Hex.{digits32}
use qbitx_pool.Job.{Job}
use qbitx_pool.Accounting.Store.{ShareStore}
use qbitx_pool.Stratum.{DifficultyConfig}
use qbitx_pool.Stratum.Message.{Request, Message}
use qbitx_pool.Stratum.Conn.{Conn, RetargetConfig, new_conn, send_job}
use qbitx_pool.Stratum.Submit.{Outcome, Validator}
use qbitx_pool.Stratum.History.{handle_request}

-- `next_en1` is an atomic uint32; the map of connections is an association list.
pub record Server (S : Type 0) : Type 0 where
  pub next_en1 : ℕ
  pub conns : List (ℕ × Conn)
  pub store : S

-- What happens to the server. A request is served with the current job of the job maker.
pub data Step : Type 0 where
  accept : Step
  close : ℕ → Step
  serve : ℕ → Request → ℕ → Option Job → List Job → Step
  broadcast : Job → Step

unfoldable pub remove : ℕ → List (ℕ × Conn) → List (ℕ × Conn)
remove n [] = []
remove n ((k, c) ∷ rest) = if k == n then rest else (k, c) ∷ remove n rest

-- `s.conns[en1] = conn`
unfoldable pub add_conn : ℕ → Conn → List (ℕ × Conn) → List (ℕ × Conn)
unfolding remove
add_conn n c conns = (n, c) ∷ remove n conns

unfoldable pub find_conn : ℕ → List (ℕ × Conn) → Option Conn
find_conn n [] = none
find_conn n ((k, c) ∷ rest) = if k == n then some c else find_conn n rest

unfoldable pub replace_conn : ℕ → Conn → List (ℕ × Conn) → List (ℕ × Conn)
replace_conn n d [] = []
replace_conn n d ((k, c) ∷ rest) = if k == n then (k, d) ∷ rest else (k, c) ∷ replace_conn n d rest

-- sendJob to every connection, and all that is sent.
unfoldable pub broadcast_job : Job → List (ℕ × Conn) → List (ℕ × Conn) × List Message
unfolding send_job
broadcast_job j [] = ([], [])
broadcast_job j ((k, c) ∷ rest) =
    let first = send_job j c in
    let others = broadcast_job j rest in ((k, first.0) ∷ others.0, first.1 ++ others.1)

-- The number of the connection that is accepted next.
abbrev pub next_number : {S : Type 0} → Server S → ℕ
next_number s = (s.next_en1 + 1) % 2 ^ 32

unfoldable pub accept_conn : {S : Type 0} → DifficultyConfig → Server S → Server S
unfolding add_conn digits32
accept_conn cfg s =
    let en1 = next_number s in
    record s { next_en1 = en1; conns = add_conn en1 (new_conn cfg (digits32 en1)) s.conns }

module _ {S : Type 0} (store : ShareStore S) (cfg : DifficultyConfig) (rc : RetargetConfig)
    (validate : Option Job → Validator) where
  -- A connection that is closed serves nothing.
  abbrev pub serve_conn :
      ℕ → Request → ℕ → Option Job → List Job → Option Conn → Server S → Server S
  unfolding replace_conn handle_request
  serve_conn en1 req now current late none s = s
  serve_conn en1 req now current late (some c) s =
      let o = handle_request store cfg rc validate req now current late c s.store in
      record s { conns = replace_conn en1 o.conn s.conns; store = o.store }

  unfoldable pub server_step : Step → Server S → Server S
  unfolding accept_conn remove find_conn replace_conn broadcast_job handle_request
  server_step accept s = accept_conn cfg s
  server_step (close en1) s = record s { conns = remove en1 s.conns }
  server_step (serve en1 req now current late) s =
      serve_conn en1 req now current late (find_conn en1 s.conns) s
  server_step (broadcast j) s = record s { conns = (broadcast_job j s.conns).0 }

  unfoldable pub server_run : List Step → Server S → Server S
  unfolding server_step
  server_run [] s = s
  server_run (e ∷ es) s = server_run es (server_step e s)

-- The server before the first connection.
abbrev pub new_server : {S : Type 0} → S → Server S
new_server store = record { next_en1 = 0; conns = []; store = store }

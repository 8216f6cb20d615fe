-- ===== src/Stratum/Server/Numbers.antt =====
-- The extra nonces of the connections that are open at one time.
use qbitx_pool.Base.{
  ℕ, suc, ◌+◌, ◌%◌, ◌^◌, ◌≤◌, ◌<◌, ◌≡◌, ◌≢◌, refl, ap, sym, ◌∙◌, inl, inr, Option-cases, Option,
  some, List, [], ◌∷◌, All, Text, reverse, le_bytes, le_bytes-IsByte, arith,
}
use mathlib.Core.Option.{some-injective}
use qbitx_pool.Hex
use qbitx_pool.Hex.{digits32}
use qbitx_pool.Mining.Base58.Bytes.{All-reverse}
use qbitx_pool.Job.{Job, extra_nonce1_size}
use qbitx_pool.Share.{clean, of_size, parse_hex32}
use qbitx_pool.Share.Judge.{sized_lem, eight_digits, parse_hex32-digits32}
use qbitx_pool.Accounting.Database.Rows.{All-weaken}
use qbitx_pool.Accounting.Store.{ShareStore}
use qbitx_pool.Stratum.{DifficultyConfig}
use qbitx_pool.Stratum.Retarget.{retarget-Same}
use qbitx_pool.Stratum.Message.{Json, Request}
use qbitx_pool.Stratum.Conn.{Conn, RetargetConfig, send_job}
use qbitx_pool.Stratum.Submit.{Validator, send_jobs, handle_submit}
use qbitx_pool.Stratum.Submit.Branches.{
  malformed, locked_out, stale, repeated, invalid, unrecorded, stored, handle_submit_lem,
}
use qbitx_pool.Stratum.History.{handle_request}
use qbitx_pool.Stratum.History.Cases.{request_cases, handle_authorize_cases, handle_subscribe_cases}
use qbitx_pool.Stratum.History.Once.{Distinct}
use qbitx_pool.Stratum.Server.{
  Server, Step, accept, close, serve, broadcast, add_conn, find_conn, accept_conn, server_step,
  server_run, new_server,
}
use qbitx_pool.Stratum.Server.Table.{
  Numbered, Apart, All-remove, Apart-remove, All-replace_conn, Apart-replace_conn,
  broadcast_job-Numbered, broadcast_job-Apart,
}

send_jobs_hex : (js : List Job) (c : Conn) → (send_jobs js c).0.en1_hex ≡ c.en1_hex
unfolding send_jobs send_job
send_jobs_hex [] c = refl
send_jobs_hex (j ∷ js) c = send_jobs_hex js (send_job j c).0

module _ {S : Type 0} (store : ShareStore S) (cfg : DifficultyConfig) (rc : RetargetConfig)
    (validate : Option Job → Validator) where
  handle_submit_hex :
      (v : Validator) (id : Text) (params : Option Json) (now : ℕ) (late : List Job) (c : Conn)
      (s : S)
      → (handle_submit store cfg rc v id params now late c s).conn.en1_hex ≡ c.en1_hex
  handle_submit_hex v id params now late c s =
      elim (handle_submit_lem store cfg rc v id params now late c s) [
        | malformed bad e ↦ rw e refl
        | locked_out out e ↦ rw e refl
        | stale w p a why e ↦ rw e refl
        | repeated w p k seen e ↦ rw e (send_jobs_hex late c)
        | invalid w a er bad e ↦ rw e (send_jobs_hex late c)
        | unrecorded w a good er bad e ↦ rw e (send_jobs_hex late c)
        | stored w a good fine e ↦ rw e ((retarget-Same cfg rc now _).0 ∙ send_jobs_hex late c)
      ]

  handle_request_hex :
      (req : Request) (now : ℕ) (current : Option Job) (late : List Job) (c : Conn) (s : S)
      → (handle_request store cfg rc validate req now current late c s).conn.en1_hex ≡ c.en1_hex
  unfolding send_job
  handle_request_hex req now current late c s =
      request_cases store cfg rc validate (λ o. o.conn.en1_hex ≡ c.en1_hex) req now current late c s
        (λ sent. refl)
        (λ m. elim (handle_subscribe_cases req.id current c) [
          | inl e ↦ rw e refl
          | inr (j, e) ↦ rw e refl
        ])
        (elim (handle_authorize_cases cfg req.id req.params c) [
          | inl e ↦ rw e refl
          | inr (w, e) ↦ rw e refl
        ])
        (handle_submit_hex (validate current) req.id req.params now late c s)

record Inv {S : Type 0} (n : ℕ) (s : Server S) : Type 0 where
  next : s.next_en1 ≡ n
  numbered : All (Numbered n) s.conns
  apart : Apart s.conns

-- The connections that are accepted in a run.
abbrev accept_count : List Step → ℕ
accept_count [] = 0
accept_count (accept ∷ es) = suc (accept_count es)
accept_count (close n ∷ es) = accept_count es
accept_count (serve n req now current late ∷ es) = accept_count es
accept_count (broadcast j ∷ es) = accept_count es

accept_conn-Inv :
    {S : Type 0} (cfg : DifficultyConfig) (n : ℕ) (s : Server S)
    → suc n < 2 ^ 32
    → Inv n s
    → Inv (suc n) (accept_conn cfg s)
unfolding accept_conn add_conn
accept_conn-Inv cfg n s h v =
    let number : (s.next_en1 + 1) % 2 ^ 32 ≡ suc n = omega (arith, v.next) in
    record {
      next = number;
      numbered = (
        (omega (arith, number), omega (arith, number), refl),
        All-remove (Numbered (suc n)) _ s.conns (
            All-weaken (Numbered n) (Numbered (suc n)) s.conns
              (λ p q. (q.0, omega (arith, q.1), q.2)) v.numbered),
      );
      apart = (
        All-remove _ _ s.conns
            (All-weaken (Numbered n) _ s.conns (λ p q e. omega (arith, q.1, e, number)) v.numbered),
        Apart-remove _ s.conns v.apart,
      );
    }

-- Two numbers with the same digits are one.
digits32_injective : (n m : ℕ) → n < 2 ^ 32 → m < 2 ^ 32 → digits32 n ≡ digits32 m → n ≡ m
digits32_injective n m h k e =
    some-injective n m
      (sym (parse_hex32-digits32 n h) ∙ ap parse_hex32 e ∙ parse_hex32-digits32 m k)

abbrev pub hexes : List (ℕ × Conn) → List Text
hexes [] = []
hexes ((k, c) ∷ cs) = c.en1_hex ∷ hexes cs

-- An extra nonce that Validate takes: hexadecimal, of four bytes.
abbrev pub IsNonce : Text → Type 0
IsNonce h = (b : List ℕ) × (of_size extra_nonce1_size (clean (Hex.decode h)) ≡ some b)

digits32-IsNonce : (n : ℕ) → IsNonce (digits32 n)
unfolding digits32
digits32-IsNonce n = (
  reverse (le_bytes 4 n),
  sized_lem 4 (reverse (le_bytes 4 n)) (All-reverse (le_bytes 4 n) (le_bytes-IsByte 4 n))
      (eight_digits n),
)

hexes-IsNonce : (n : ℕ) (cs : List (ℕ × Conn)) → All (Numbered n) cs → All IsNonce (hexes cs)
hexes-IsNonce n [] h = tt
hexes-IsNonce n ((k, c) ∷ cs) h = (rw h.0.2 (digits32-IsNonce k), hexes-IsNonce n cs h.1)

hexes_apart :
    (n k : ℕ) (cs : List (ℕ × Conn))
    → n < 2 ^ 32
    → k ≤ n
    → All (λ (p : ℕ × Conn). p.0 ≢ k) cs
    → All (Numbered n) cs
    → All (λ u. digits32 k ≢ u) (hexes cs)
hexes_apart n k [] b q a h = tt
hexes_apart n k ((m, c) ∷ cs) b q a h = (
  (λ e. a.0 (sym (digits32_injective k m (omega arith) (omega (arith, h.0.1)) (e ∙ h.0.2)))),
  hexes_apart n k cs b q a.1 h.1,
)

hexes-Distinct :
    (n : ℕ) (cs : List (ℕ × Conn))
    → n < 2 ^ 32
    → Apart cs
    → All (Numbered n) cs
    → Distinct (hexes cs)
hexes-Distinct n [] b a h = tt
hexes-Distinct n ((k, c) ∷ cs) b a h =
    (rw h.0.2 (hexes_apart n k cs b h.0.1 a.0 h.1), hexes-Distinct n cs b a.1 h.1)

module _ {S : Type 0} (store : ShareStore S) (cfg : DifficultyConfig) (rc : RetargetConfig)
    (validate : Option Job → Validator) where
  serve-Inv :
      (n en1 : ℕ) (req : Request) (now : ℕ) (current : Option Job) (late : List Job) (s : Server S)
      → Inv n s
      → Inv n (server_step store cfg rc validate (serve en1 req now current late) s)
  unfolding server_step
  serve-Inv n en1 req now current late s v = elim (Option-cases (find_conn en1 s.conns)) [
    | inl e ↦ rw e v
    | inr (c, e) ↦ rw e (
        let o = handle_request store cfg rc validate req now current late c s.store in
        record {
          next = v.next;
          numbered =
              All-replace_conn (Numbered n) en1 o.conn s.conns
                (λ k d q h. (
                  h.0,
                  h.1,
                  handle_request_hex store cfg rc validate req now current late c s.store
                      ∙ ap (λ x. x.en1_hex) (some-injective c d (sym e ∙ q))
                      ∙ h.2,
                ))
                v.numbered;
          apart = Apart-replace_conn en1 o.conn s.conns v.apart;
        })
  ]

  run-Inv :
      (n m : ℕ) (es : List Step) (s : Server S)
      → n + accept_count es ≡ m
      → m < 2 ^ 32
      → Inv n s
      → Inv m (server_run store cfg rc validate es s)
  unfolding server_run server_step
  run-Inv n m [] s q b v = rw (sym (total n m q)) v
    where
      total : (n m : ℕ) → n + 0 ≡ m → n ≡ m
      total n m q = omega arith
  run-Inv n m (accept ∷ es) s q b v =
      run-Inv (suc n) m es (accept_conn cfg s) (omega (arith, q)) b
        (accept_conn-Inv cfg n s (omega (arith, q, b)) v)
  run-Inv n m (close k ∷ es) s q b v = run-Inv n m es _ q b (record {
    next = v.next;
    numbered = All-remove (Numbered n) k s.conns v.numbered;
    apart = Apart-remove k s.conns v.apart;
  })
  run-Inv n m (serve en1 req now current late ∷ es) s q b v =
      run-Inv n m es _ q b (serve-Inv n en1 req now current late s v)
  run-Inv n m (broadcast j ∷ es) s q b v = run-Inv n m es _ q b (record {
    next = v.next;
    numbered = broadcast_job-Numbered n j s.conns v.numbered;
    apart = broadcast_job-Apart j s.conns v.apart;
  })

  -- The connections that are open have different extra nonces, each of which the validator takes,
  -- whatever they sent, whichever of them were closed, and whatever was broadcast. Condition: fewer
  -- than 2^32 connections have been accepted.
  pub server_run-Distinct :
      (es : List Step) (s : S)
      → accept_count es < 2 ^ 32
      → (let conns = (server_run store cfg rc validate es (new_server s)).conns in
          Distinct (hexes conns) × All IsNonce (hexes conns))
  server_run-Distinct es s b =
      let v =
        run-Inv 0 (accept_count es) es (new_server s) (omega arith) b
          (record { next = refl; numbered = tt; apart = tt }) in
      (
        hexes-Distinct (accept_count es) _ b v.apart v.numbered,
        hexes-IsNonce (accept_count es) _ v.numbered,
      )

-- ===== src/Stratum/Server/Table.antt =====
-- The table of connections: what the server does to it keeps the numbers apart and what holds of each.
use qbitx_pool.Base.{ℕ, ◌≤◌, ◌==◌, ◌≡◌, ◌≢◌, refl, inl, inr, Bool-cases, some, List, [], ◌∷◌, All}
use qbitx_pool.Hex.{digits32}
use qbitx_pool.Job.{Job}
use qbitx_pool.Stratum.Conn.{Conn, send_job}
use qbitx_pool.Stratum.Server.{remove, find_conn, replace_conn, broadcast_job}

-- A connection stands at its number, which is at most `n`.
abbrev pub Numbered : ℕ → ℕ × Conn → Type 0
Numbered n (k, c) = (1 ≤ k) × (k ≤ n) × (c.en1_hex ≡ digits32 k)

abbrev pub Apart : List (ℕ × Conn) → Type 0
Apart [] = Unit
Apart ((k, c) ∷ rest) = All (λ (p : ℕ × Conn). p.0 ≢ k) rest × Apart rest

pub All-remove :
    (P : ℕ × Conn → Type 0) (n : ℕ) (cs : List (ℕ × Conn)) → All P cs → All P (remove n cs)
unfolding remove
All-remove P n [] h = tt
All-remove P n ((k, c) ∷ cs) h = elim (Bool-cases (k == n)) [
  | inl e ↦ rw e h.1
  | inr e ↦ rw e (h.0, All-remove P n cs h.1)
]

pub Apart-remove : (n : ℕ) (cs : List (ℕ × Conn)) → Apart cs → Apart (remove n cs)
unfolding remove
Apart-remove n [] h = tt
Apart-remove n ((k, c) ∷ cs) h = elim (Bool-cases (k == n)) [
  | inl e ↦ rw e h.1
  | inr e ↦ rw e (All-remove (λ p. p.0 ≢ k) n cs h.0, Apart-remove n cs h.1)
]

-- Replacing a connection keeps what holds of numbers, and of connections with its extra nonce.
pub All-replace_conn :
    (P : ℕ × Conn → Type 0) (n : ℕ) (d : Conn) (cs : List (ℕ × Conn))
    → ((k : ℕ) (c : Conn) → find_conn n cs ≡ some c → P (k, c) → P (k, d))
    → All P cs
    → All P (replace_conn n d cs)
unfolding replace_conn find_conn
All-replace_conn P n d [] f h = tt
All-replace_conn P n d ((k, c) ∷ cs) f h = elim (Bool-cases (k == n)) [
  | inl e ↦ rw e (f k c (rw e refl) h.0, h.1)
  | inr e ↦ rw e (h.0, All-replace_conn P n d cs (λ k' c' q. f k' c' (rw e q)) h.1)
]

pub Apart-replace_conn :
    (n : ℕ) (d : Conn) (cs : List (ℕ × Conn)) → Apart cs → Apart (replace_conn n d cs)
unfolding replace_conn
Apart-replace_conn n d [] h = tt
Apart-replace_conn n d ((k, c) ∷ cs) h = elim (Bool-cases (k == n)) [
  | inl e ↦ rw e h
  | inr e ↦
      rw e
        (All-replace_conn (λ p. p.0 ≢ k) n d cs (λ k' c' q a. a) h.0, Apart-replace_conn n d cs h.1)
]

pub broadcast_job-Numbered :
    (n : ℕ) (j : Job) (cs : List (ℕ × Conn))
    → All (Numbered n) cs
    → All (Numbered n) (broadcast_job j cs).0
unfolding broadcast_job send_job
broadcast_job-Numbered n j [] h = tt
broadcast_job-Numbered n j ((k, c) ∷ cs) h = (h.0, broadcast_job-Numbered n j cs h.1)

broadcast_job-keys :
    (P : ℕ → Type 0) (j : Job) (cs : List (ℕ × Conn))
    → All (λ (p : ℕ × Conn). P p.0) cs
    → All (λ (p : ℕ × Conn). P p.0) (broadcast_job j cs).0
unfolding broadcast_job
broadcast_job-keys P j [] h = tt
broadcast_job-keys P j ((k, c) ∷ cs) h = (h.0, broadcast_job-keys P j cs h.1)

pub broadcast_job-Apart : (j : Job) (cs : List (ℕ × Conn)) → Apart cs → Apart (broadcast_job j cs).0
unfolding broadcast_job
broadcast_job-Apart j [] h = tt
broadcast_job-Apart j ((k, c) ∷ cs) h =
    (broadcast_job-keys (λ m. m ≢ k) j cs h.0, broadcast_job-Apart j cs h.1)

-- ===== src/Stratum/History/Cases.antt =====
-- How handleRequest splits into its handlers, and what the handlers do to the connection.
use qbitx_pool.Base.{
  ℕ, ◌≡◌, refl, ◌⊎◌, inl, inr, Bool, true, false, Option, none, some, List, [], ◌∷◌, if◌then◌else◌,
  Text, codes, text_eq,
}
use qbitx_pool.Job.{Job}
use qbitx_pool.Accounting.Store.{ShareStore}
use qbitx_pool.Stratum.{DifficultyConfig, pick_start_diff}
use qbitx_pool.Stratum.Message.{Json, Request, Message, string_params}
use qbitx_pool.Stratum.Conn.{
  Conn, RetargetConfig, handle_subscribe, handle_authorize, authorize, send_job,
}
use qbitx_pool.Stratum.Submit.{Outcome, Validator, handle_submit}
use qbitx_pool.Stratum.History.{with_store, handle_request}

if_cases :
    {A : Type 0} (P : A → Type 0) (b : Bool) (x y : A)
    → (b ≡ true → P x)
    → (b ≡ false → P y)
    → P (if b then x else y)
if_cases P true x y h k = h refl
if_cases P false x y h k = k refl

-- The connection of a worker that has just been authorized.
abbrev pub authorized_as : DifficultyConfig → Text → Conn → Conn
authorized_as cfg worker c = record c {
  worker = worker;
  authorized = true;
  diff = pick_start_diff cfg worker;
}

pub handle_authorize_cases :
    (cfg : DifficultyConfig) (id : Text) (params : Option Json) (c : Conn)
    → ((handle_authorize cfg id params c).0 ≡ c)
      ⊎ ((worker : Text) × ((handle_authorize cfg id params c).0 ≡ authorized_as cfg worker c))
unfolding handle_authorize
handle_authorize_cases cfg id params c = split (string_params params)
  where
    split :
        (o : Option (List Text))
        → ((authorize cfg id o c).0 ≡ c)
          ⊎ ((worker : Text) × ((authorize cfg id o c).0 ≡ authorized_as cfg worker c))
    split none = inl refl
    split (some []) = inl refl
    split (some (w ∷ ws)) = inr (w, refl)

pub handle_subscribe_cases :
    (id : Text) (current : Option Job) (c : Conn)
    → ((handle_subscribe id current c).0 ≡ c)
      ⊎ ((j : Job) × ((handle_subscribe id current c).0 ≡ (send_job j c).0))
unfolding handle_subscribe
handle_subscribe_cases id none c = inl refl
handle_subscribe_cases id (some j) c = inr (j, refl)

module _ {S : Type 0} (store : ShareStore S) (cfg : DifficultyConfig) (rc : RetargetConfig)
    (validate : Option Job → Validator) where
  -- A property of every outcome of handleRequest, by the handler.
  pub request_cases :
      (P : Outcome S → Type 0) (req : Request) (now : ℕ) (current : Option Job) (late : List Job)
      (c : Conn) (s : S)
      → ((sent : List Message) → P (with_store s (c, sent)))
      → (text_eq req.method (codes "mining.subscribe") ≡ true
          → P (with_store s (handle_subscribe req.id current c)))
      → P (with_store s (handle_authorize cfg req.id req.params c))
      → P (handle_submit store cfg rc (validate current) req.id req.params now late c s)
      → P (handle_request store cfg rc validate req now current late c s)
  unfolding handle_request
  request_cases P req now current late c s plain subscribed authorized submitted =
      if_cases P (text_eq req.method (codes "mining.configure")) _ _ (λ _. plain _)
        (λ _. if_cases P (text_eq req.method (codes "mining.subscribe")) _ _ subscribed (λ _.
          if_cases P (text_eq req.method (codes "mining.authorize")) _ _ (λ _. authorized)
            (λ _.
              if_cases P (text_eq req.method (codes "mining.submit")) _ _ (λ _. submitted)
                (λ _.
                  if_cases P (text_eq req.method (codes "mining.extranonce.subscribe")) _ _
                    (λ _. plain _) (λ _. plain _)))))

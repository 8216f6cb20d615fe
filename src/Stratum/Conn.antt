-- ===== src/Stratum/Conn.antt =====
-- The connection of internal/stratum/server.go and its handlers but for mining.submit. A handler
-- takes the connection to the connection afterwards and the lines that it sends, in order. A time is
-- in nanoseconds, and none is the zero time.
use qbitx_pool.Base.{
  ℕ, ◌+◌, ◌*◌, ◌/◌, ◌%◌, ◌^◌, ltb, leb, if◌then◌else◌, Bool, true, false, Option, none, some, List,
  [], ◌∷◌, ◌++◌, Text, codes, text_eq, ℤ, pos, negsuc, ◌*ℤ◌, wrap64, length,
}
use qbitx_pool.Float64.{Float64, of_ratio, of_int64, zero_f, one_f, lt, le, add, sub, mul, div, abs}
use qbitx_pool.Job.{Job, extra_nonce2_size}
use qbitx_pool.Stratum.{DifficultyConfig, clamp_diff, pick_start_diff}
use qbitx_pool.Stratum.Message.{
  Json, null, text, array, other, nil, cons, unmarshal_strings, string_params, bad_params,
  extensions, subscription, done, Message, result, set_difficulty, notify, send_error,
}

pub record Conn : Type 0 where
  pub en1_hex : Text
  pub worker : Text
  pub authorized : Bool
  pub diff : Float64
  pub current_job : Text
  pub submitted : List Text
  pub accepted_at : List ℕ
  pub last_adjust : Option ℕ

-- The connection that handleConn makes.
abbrev pub new_conn : DifficultyConfig → Text → Conn
new_conn cfg en1_hex = record {
  en1_hex = en1_hex;
  worker = [];
  authorized = false;
  diff = cfg.start;
  current_job = [];
  submitted = [];
  accepted_at = [];
  last_adjust = none;
}

-- sendJob
unfoldable pub send_job : Job → Conn → Conn × List Message
send_job j c = (record c { current_job = j.id; submitted = [] }, notify j ∷ [])

unfoldable pub member : Text → List Text → Bool
member s [] = false
member s (t ∷ ts) = if text_eq s t then true else member s ts

-- markSubmitted: none where the key is there already.
unfoldable pub mark_submitted : Text → Conn → Option Conn
unfolding member
mark_submitted key c =
    if member key c.submitted then none else some (record c { submitted = key ∷ c.submitted })

-- The map that handleConfigure answers, without the order that it has none of.
unfoldable pub put : Text → Bool → List (Text × Bool) → List (Text × Bool)
put k b [] = (k, b) ∷ []
put k b ((l, d) ∷ r) = if text_eq k l then (l, b) ∷ r else (l, d) ∷ put k b r

unfoldable pub grant : List Text → List (Text × Bool) → List (Text × Bool)
unfolding put
grant [] granted = granted
grant (ext ∷ exts) granted =
    grant exts (put ext (text_eq ext (codes "subscribe-extranonce")) granted)

abbrev pub or_default : List (Text × Bool) → List (Text × Bool)
or_default [] = (codes "subscribe-extranonce", true) ∷ []
or_default (e ∷ es) = e ∷ es

-- `requested`, of the first parameter; none where the parameters are no list.
abbrev pub requested : Option Json → Option (List Text)
unfolding unmarshal_strings
requested none = some []
requested (some null) = some []
requested (some (text s)) = none
requested (some (array nil)) = some []
requested (some (array (cons j js))) = some (unmarshal_strings j).0
requested (some other) = none

unfoldable pub handle_configure : Text → Option Json → List Message
unfolding grant
handle_configure id params = elim (requested params) [
  | none ↦ send_error id bad_params ∷ []
  | some exts ↦ result id (extensions (or_default (grant exts []))) ∷ []
]

-- The current job is the one of the job maker.
unfoldable pub handle_subscribe : Text → Option Job → Conn → Conn × List Message
unfolding send_job
handle_subscribe id current c =
    let greeting =
      result id (subscription c.en1_hex extra_nonce2_size) ∷ set_difficulty c.diff ∷ [] in
    elim current [
      | none ↦ (c, greeting)
      | some j ↦ let sent = send_job j c in (sent.0, greeting ++ sent.1)
    ]

abbrev pub authorize : DifficultyConfig → Text → Option (List Text) → Conn → Conn × List Message
unfolding pick_start_diff
authorize cfg id none c = (c, send_error id bad_params ∷ [])
authorize cfg id (some []) c = (c, send_error id bad_params ∷ [])
authorize cfg id (some (worker ∷ rest)) c =
    let diff = pick_start_diff cfg worker in
    (
      record c { worker = worker; authorized = true; diff = diff },
      result id done ∷ set_difficulty diff ∷ [],
    )

unfoldable pub handle_authorize : DifficultyConfig → Text → Option Json → Conn → Conn × List Message
unfolding pick_start_diff string_params
handle_authorize cfg id params c = authorize cfg id (string_params params) c

-- The fields that only retarget reads, int each.
pub record RetargetConfig : Type 0 where
  pub target_time : ℤ
  pub retarget_interval : ℤ

abbrev pub second : ℕ
second = 10 ^ 9

-- `target`
abbrev pub target_seconds : RetargetConfig → Float64
target_seconds cfg =
    let target = of_int64 cfg.target_time in if le target zero_f then of_ratio 10 1 else target

-- `interval`, in nanoseconds.
abbrev pub at_least_30s : ℤ → ℕ
at_least_30s (pos n) = if leb n 0 then 30 * second else n
at_least_30s (negsuc n) = 30 * second

abbrev pub interval : RetargetConfig → ℕ
unfolding ◌*ℤ◌
interval cfg = at_least_30s (wrap64 (cfg.retarget_interval *ℤ pos second))

-- Duration.Seconds
abbrev pub seconds : ℕ → Float64
seconds d =
    add (of_int64 (pos (d / second))) (div (of_int64 (pos (d % second))) (of_int64 (pos second)))

-- `t.After(now.Add(-interval))`
unfoldable pub keep_after : ℕ → ℕ → List ℕ → List ℕ
keep_after now i [] = []
keep_after now i (t ∷ ts) = if ltb now (t + i) then t ∷ keep_after now i ts else keep_after now i ts

abbrev pub bound_factor : Float64 → Float64
bound_factor f =
    let low = if lt (of_ratio 4 1) f then of_ratio 4 1 else f in
    if lt low (of_ratio 1 4) then of_ratio 1 4 else low

-- The difficulty after `count` accepted shares in an interval that took `actual` each.
abbrev pub next_diff : DifficultyConfig → Float64 → Float64 → Float64 → Float64
unfolding clamp_diff
next_diff cfg target actual diff =
    clamp_diff (mul diff (bound_factor (div target actual))) cfg.min cfg.max

-- `oldDiff`, and whether the change is too small.
abbrev pub base_diff : Float64 → Float64
base_diff diff = if le diff zero_f then one_f else diff

abbrev pub is_small : Float64 → Float64 → Bool
is_small old new = lt (div (abs (sub new old)) old) (of_ratio 1 10)

-- The end of retarget, where the interval is over: the connection, and the new difficulty where it
-- changed.
abbrev pub adjust : DifficultyConfig → Float64 → ℕ → ℕ → Conn → Conn × Option Float64
adjust cfg target i now c =
    let actual = div (seconds i) (of_int64 (pos (length c.accepted_at))) in
    let new_diff = next_diff cfg target actual c.diff in
    let reset = record c { accepted_at = []; last_adjust = some now } in
    if le actual zero_f
    then (record c { last_adjust = some now }, none)
    else if is_small (base_diff c.diff) new_diff
    then (reset, none)
    else (record reset { diff = new_diff }, some new_diff)

abbrev pub adjust_after :
    DifficultyConfig → RetargetConfig → ℕ → Option ℕ → Conn → Conn × Option Float64
adjust_after cfg r now none c = (record c { last_adjust = some now }, none)
adjust_after cfg r now (some last) c =
    if ltb now (last + interval r)
    then (c, none)
    else if leb (length (keep_after now (interval r) c.accepted_at)) 0
    then (record c { accepted_at = []; last_adjust = some now }, none)
    else adjust cfg (target_seconds r) (interval r) now
        (record c { accepted_at = keep_after now (interval r) c.accepted_at })

unfoldable pub retarget : DifficultyConfig → RetargetConfig → ℕ → Conn → Conn × Option Float64
retarget cfg r now c =
    adjust_after cfg r now c.last_adjust (record c { accepted_at = c.accepted_at ++ now ∷ [] })

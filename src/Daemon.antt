-- ===== src/Daemon.antt =====
-- The client of internal/daemon/rpc.go. What travels by HTTP is a parameter: for each request, the
-- decoded response of the daemon, or none where the connection or the decoding failed.
pub mod Payments
mod Tests
use qbitx_pool.Base.{
  ℕ, suc, ◌+◌, ltb, leb, if◌then◌else◌, Bool, true, false, ◌&&◌, ◌||◌, Option, none, some, List, [],
  ◌∷◌, ◌++◌, length, Text, codes, text_eq, ℤ, pos, negsuc,
}
use qbitx_pool.Base.Results.{Result, ok, err, ◌>>=◌, map_err}
use qbitx_pool.Float64.{Float64}
use qbitx_pool.Job.Template.{BlockTemplate}

-- The parameters of the five methods that are called.
pub data Params : Type 0 where
  no_params : Params
  template_capabilities : Params
  hash_param : Text → Params
  -- the account, which is "", and the amounts
  payments : List (Text × Float64) → Params

pub record RpcRequest : Type 0 where
  pub id : ℕ
  pub method : Text
  pub params : Params

pub record RpcError : Type 0 where
  pub code : ℤ
  pub message : Text

-- A result by what it decodes to: a string, a number that fits an int64, an object with the fields
-- of a template or with `confirmations` (0 where it has none), null, and any other.
pub data RpcResult : Type 0 where
  string : Text → RpcResult
  number : ℤ → RpcResult
  template : BlockTemplate → RpcResult
  block : ℤ → RpcResult
  null : RpcResult
  other : RpcResult

pub record RpcResponse : Type 0 where
  pub result : RpcResult
  pub error : Option RpcError

pub data CallError : Type 0 where
  transport : CallError
  rpc : RpcError → CallError
  -- json.Unmarshal of the result
  parse : CallError
  block_rejected : Text → CallError
  invalid_payout_address : Text → CallError
  empty_txid : CallError

-- The client with the requests that it sent, the last first; `next_id` is atomic.
pub record Client : Type 0 where
  pub next_id : ℕ
  pub requests : List RpcRequest

abbrev pub Answers : Type 0
Answers = RpcRequest → Option RpcResponse

abbrev pub response : Option RpcResponse → Result CallError RpcResult
response none = err transport
response (some r) = elim r.error [ none ↦ ok r.result | some e ↦ err (rpc e) ]

unfoldable pub call : Answers → Text → Params → Client → Client × Result CallError RpcResult
call answers method params c =
    let request : RpcRequest = record { id = c.next_id + 1; method = method; params = params } in
    (
      record { next_id = c.next_id + 1; requests = request ∷ c.requests },
      response (answers request),
    )

-- json.Unmarshal into a string, an int64, and the field `confirmations`; null leaves a zero value.
abbrev pub to_string : RpcResult → Result CallError Text
to_string (string s) = ok s
to_string null = ok []
to_string _ = err parse

abbrev pub to_number : RpcResult → Result CallError ℤ
to_number (number n) = ok n
to_number null = ok (pos 0)
to_number _ = err parse

abbrev pub to_confirmations : RpcResult → Result CallError ℤ
to_confirmations (block n) = ok n
to_confirmations (template t) = ok (pos 0)
to_confirmations null = ok (pos 0)
to_confirmations _ = err parse

abbrev pub zero_template : BlockTemplate
zero_template = record {
  version = pos 0;
  previous_block_hash = [];
  transactions = [];
  coinbase_value = pos 0;
  target = [];
  cur_time = pos 0;
  bits = [];
  height = pos 0;
}

abbrev pub to_template : RpcResult → Result CallError BlockTemplate
to_template (template t) = ok t
to_template (block n) = ok zero_template
to_template null = ok zero_template
to_template _ = err parse

abbrev pub then_parse :
    {A : Type 0}
    → Client × Result CallError RpcResult
    → (RpcResult → Result CallError A)
    → Client × Result CallError A
then_parse (c, r) f = (c, r >>= f)

unfoldable pub get_block_template : Answers → Client → Client × Result CallError BlockTemplate
unfolding call
get_block_template answers c =
    then_parse (call answers (codes "getblocktemplate") template_capabilities c) to_template

-- A reason that is not empty is a rejection; a result that is no string is none.
abbrev pub reason_of : RpcResult → Result CallError (Unit {0})
reason_of (string []) = ok tt
reason_of (string (b ∷ bs)) = err (block_rejected (b ∷ bs))
reason_of _ = ok tt

unfoldable pub submit_block : Answers → Text → Client → Client × Result CallError (Unit {0})
unfolding call
submit_block answers hex c =
    then_parse (call answers (codes "submitblock") (hash_param hex) c) reason_of

unfoldable pub get_block_count : Answers → Client → Client × Result CallError ℤ
unfolding call
get_block_count answers c = then_parse (call answers (codes "getblockcount") no_params c) to_number

-- A character of an address is not 0 and otherwise a digit or an ASCII letter.
abbrev pub is_address_char : ℕ → Bool
is_address_char c =
    (leb b'1' c && leb c b'9') || (leb b'A' c && leb c b'Z') || (leb b'a' c && leb c b'z')

unfoldable pub all_chars : Text → Bool
all_chars [] = true
all_chars (c ∷ cs) = is_address_char c && all_chars cs

unfoldable pub is_valid_address : Text → Bool
unfolding all_chars
is_valid_address addr =
    if ltb (length addr) 26 || ltb 35 (length addr) then false else all_chars addr

-- The address that the first loop of SendMany stops at, in the order in which Go visits the map.
unfoldable pub first_invalid : List (Text × Float64) → Option Text
unfolding is_valid_address
first_invalid [] = none
first_invalid ((addr, amount) ∷ rest) =
    if is_valid_address addr then first_invalid rest else some addr

abbrev pub to_txid : RpcResult → Result CallError Text
to_txid r = to_string r >>= λ txid. if text_eq txid [] then err empty_txid else ok txid

abbrev pub send_valid :
    Answers → List (Text × Float64) → Option Text → Client → Client × Result CallError Text
unfolding call
send_valid answers amounts none c =
    then_parse (call answers (codes "sendmany") (payments amounts) c) to_txid
send_valid answers amounts (some addr) c = (c, err (invalid_payout_address addr))

unfoldable pub send_many : Answers → List (Text × Float64) → Client → Client × Result CallError Text
unfolding first_invalid call
send_many answers amounts c = send_valid answers amounts (first_invalid amounts) c

-- The confirmations of a block, and whether the daemon knows it: its error -5 says that it does not.
abbrev pub is_not_found : CallError → Bool
is_not_found (rpc e) = elim e.code [ pos n ↦ false | negsuc n ↦ leb n 4 && leb 4 n ]
is_not_found _ = false

abbrev pub confirmations_of : Result CallError RpcResult → Result CallError (ℤ × Bool)
confirmations_of (ok r) = to_confirmations r >>= λ n. ok (n, true)
confirmations_of (err e) = if is_not_found e then ok (pos 0, false) else err e

unfoldable pub lookup_block_confirmations :
    Answers → Text → Client → Client × Result CallError (ℤ × Bool)
unfolding call
lookup_block_confirmations answers hash c =
    let (after, r) = call answers (codes "getblock") (hash_param hash) c in
    (after, confirmations_of r)

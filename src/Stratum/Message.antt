-- ===== src/Stratum/Message.antt =====
-- The messages of internal/stratum/server.go: Request, Response and Notification, and what
-- encoding/json makes of the parameters of a request.
use qbitx_pool.Base.{
  ℕ, if◌then◌else◌, Bool, true, false, ◌&&◌, Option, none, some, List, [], ◌∷◌, Text,
}
use qbitx_pool.Float64.{Float64}
use qbitx_pool.Job.{Job}
use qbitx_pool.Share.{ShareError}

-- A parsed JSON value: numbers, Booleans and objects are kept apart from texts only.
mutual
  pub data Json : Type 0 where
    null : Json
    text : Text → Json
    array : Jsons → Json
    other : Json

  pub data Jsons : Type 0 where
    nil : Jsons
    cons : Json → Jsons → Jsons

-- `params` is `none` where the request has none.
pub record Request : Type 0 where
  pub id : Text
  pub method : Text
  pub params : Option Json

-- What json.Unmarshal makes of an element of a []string, and whether it is one.
abbrev pub string_of : Json → Text × Bool
string_of null = ([], true)
string_of (text s) = (s, true)
string_of (array js) = ([], false)
string_of other = ([], false)

unfoldable pub strings_of : Jsons → List Text × Bool
strings_of nil = ([], true)
strings_of (cons j js) =
    let first = string_of j in let rest = strings_of js in (first.0 ∷ rest.0, first.1 && rest.1)

-- json.Unmarshal into an empty []string: the slice, and whether there is no error.
unfoldable pub unmarshal_strings : Json → List Text × Bool
unfolding strings_of
unmarshal_strings null = ([], true)
unmarshal_strings (text s) = ([], false)
unmarshal_strings (array js) = strings_of js
unmarshal_strings other = ([], false)

-- Where the caller gives up on an error; without parameters there is one.
unfoldable pub string_params : Option Json → Option (List Text)
unfolding unmarshal_strings
string_params none = none
string_params (some j) =
    let strings = unmarshal_strings j in if strings.1 then some strings.0 else none

-- The errors that are sent.
pub data Refusal : Type 0 where
  bad_params unknown_method unauthorized stale_job duplicate_share : Refusal
  invalid_share : ShareError → Refusal
  accounting_unavailable : Refusal

abbrev pub code : Refusal → ℕ
code bad_params = 20
code unknown_method = 20
code unauthorized = 24
code stale_job = 21
code duplicate_share = 22
code (invalid_share e) = 23
code accounting_unavailable = 23

-- The results that are sent: the extensions of mining.configure, the extra nonce and the size of the
-- other one for mining.subscribe, and `true`.
pub data Value : Type 0 where
  extensions : List (Text × Bool) → Value
  subscription : Text → ℕ → Value
  done : Value

-- A line that is sent: a response with the id of its request and a result or an error, or one of
-- the two notifications.
pub data Message : Type 0 where
  result : Text → Value → Message
  error : Text → ℕ → Refusal → Message
  set_difficulty : Float64 → Message
  notify : Job → Message

-- sendError
abbrev pub send_error : Text → Refusal → Message
send_error id r = error id (code r) r

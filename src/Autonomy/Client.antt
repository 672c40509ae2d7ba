-- ===== src/Autonomy/Client.antt =====
-- `LocalControllerClient`: requests to the controller on the loopback interface.
use Prim.Native.String.{◌++◌ as text_append}
use ai_cat_controller.Base.{
  ℕ, String, Bool, not, Option, none, some, List, [], ◌∷◌, ◌++◌, ltb, length, member, if◌then◌else◌,
}
use ai_cat_controller.Base.Int.{ℤ}
use ai_cat_controller.Errors.{value_error, controller_api_error}
use ai_cat_controller.Exec.{Result, ok, err, Exec}
use ai_cat_controller.Domain.Personalities.{personalities}
use ai_cat_controller.Domain.Personalities.Schema.{PersonalityDefinition}
use ai_cat_controller.Autonomy.Values.{Value, Members, get, as_object}
use ai_cat_controller.Autonomy.Setup.{AutonomyConfig}

-- the bodies that are sent; `intensity` is in thousandths
pub data Body : Type 0 where
  no_body : Body
  motion : ℕ → ℕ → String → Body
  speech : String → String → Body

-- A request to `http://127.0.0.1:{port}/api/v1{path}`; the key goes into the header `X-API-Key`, if it is
-- not empty.
pub record HttpRequest : Type 0 where
  pub method : String
  pub port : ℤ
  pub path : String
  pub api_key : String
  pub body : Body

-- How a request ends: with an error status, with an error of the network, or with so many bytes, which
-- `json.loads` reads, or not.
pub data Transport : Type 0 where
  http_error failed : String → Transport
  response : ℕ → Option Value → Transport

-- What the process has done so far: the requests that it has sent and the commands that it has run; and
-- whether the marker of local speech is there.
pub record World : Type 0 where
  pub sent : List HttpRequest
  pub commands : List (List String)
  pub marker : Bool

-- The controller's answer to the request with the given number.
abbrev pub Network : Type 0
Network = ℕ → HttpRequest → Transport

abbrev data_of : Option Members → Result Members
data_of none = err (controller_api_error "controller response is missing data")
data_of (some ms) = ok ms

abbrev envelope_of : Value → Result Members
envelope_of v = elim (as_object v) [
  | none ↦ err (controller_api_error "controller response is missing data")
  | some ms ↦ data_of (as_object (get "data" ms))
]

abbrev decoded : Option Value → Result Members
decoded none = err (controller_api_error "controller returned invalid JSON")
decoded (some v) = envelope_of v

unfoldable pub received : Transport → Result Members
received (Transport.http_error e) = err (controller_api_error e)
received (Transport.failed e) = err (controller_api_error e)
received (Transport.response bytes v) =
    if ltb 65536 bytes
    then err (controller_api_error "controller response exceeded the size limit")
    else decoded v

-- `_request`
unfoldable pub request : Network → HttpRequest → Exec World Members
request net q w = (received (net (length w.sent) q), record w { sent = w.sent ++ q ∷ [] })

abbrev pub request_to : AutonomyConfig → String → String → Body → HttpRequest
request_to c method path body = record {
  method = method;
  port = c.api_port;
  path = path;
  api_key = c.api_key;
  body = body;
}

unfoldable pub dialog_status : Network → AutonomyConfig → Exec World Members
dialog_status net c = request net (request_to c "GET" "/dialog/status" Body.no_body)

unfoldable pub personality_profile : Network → AutonomyConfig → Exec World Members
personality_profile net c = request net (request_to c "GET" "/personality/runtime" Body.no_body)

unfoldable pub safe_actions : List String
safe_actions = "head/nod" ∷ "head/shake" ∷ []

abbrev phrases_of : List PersonalityDefinition → List String
phrases_of [] = []
phrases_of (p ∷ ps) = p.proactive_phrases ++ phrases_of ps

-- `SHORT_PHRASES`; it is only searched, so a phrase may stand more than once here
unfoldable pub short_phrases : List String
unfolding personalities
short_phrases = phrases_of personalities

abbrev pub forget : Result Members × World → Result (Unit {0}) × World
forget (err e, w) = (err e, w)
forget (ok ms, w) = (ok tt, w)

-- `f"/motion/{action}"` for the actions that are let through
abbrev pub motion_path : String → String
motion_path action = text_append "/motion/" action

unfoldable pub start_head_action : Network → AutonomyConfig → String → String → Exec World Unit
start_head_action net c action request_id w =
    if not (member action safe_actions)
    then (err (value_error "autonomy action is not allowlisted"), w)
    else forget
        (request net (request_to c "POST" (motion_path action) (Body.motion 350 1800 request_id)) w)

unfoldable pub speak : Network → AutonomyConfig → String → String → Exec World Unit
speak net c content request_id w =
    if not (member content short_phrases)
    then (err (value_error "autonomy phrase is not allowlisted"), w)
    else forget
        (request net (request_to c "POST" "/dialog/speak" (Body.speech content request_id)) w)

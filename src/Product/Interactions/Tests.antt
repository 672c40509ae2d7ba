-- ===== src/Product/Interactions/Tests.antt =====
-- The laws of the service's interactions at work.
use ai_cat_controller.Base.{◌≡◌, refl, String, some, List, [], ◌∷◌, arith}
use ai_cat_controller.Base.Int.{pos}
use ai_cat_controller.Exec.{ok}
use ai_cat_controller.Domain.Intimacy.{InteractionRule, interaction_rules}
use ai_cat_controller.Repository.Schema.{User}
use ai_cat_controller.Repository.Samples.{morning, evening, users_only, one_pet}
use ai_cat_controller.Repository.Tables.{Env}
use ai_cat_controller.Repository.Interactions.Limits.{WithinCap}
use ai_cat_controller.Repository.Pets.{login_user, upsert_user}
use ai_cat_controller.Product.Interactions.{Sessions, login, InteractionRequest, rule_of}
use ai_cat_controller.Product.Interactions.Limits.{serve_requests, serve_requests-WithinCap}

abbrev request : String → InteractionRequest
request id = record {
  user_id = "u1";
  pet_id = "p1";
  event_type = "completed_task";
  request_id = id;
  metadata_json = "{}";
}

abbrev requests : List (Env × InteractionRequest)
requests = (morning, request "r1") ∷ (evening, request "r2") ∷ (evening, request "r3") ∷ []

serve_requests-WithinCap_example : WithinCap (pos 20) (serve_requests (pos 20) requests one_pet)
serve_requests-WithinCap_example =
    serve_requests-WithinCap (pos 20) requests one_pet (refl, (refl, (refl, tt)))
      (λ pet_id day. omega arith)

abbrev task_rule : InteractionRule
task_rule = record {
  event_type = "completed_task";
  label = "完成互动任务";
  points = pos 5;
  max_per_day = 2;
}

task_rule-eq : rule_of "completed_task" ≡ some task_rule
unfolding rule_of interaction_rules
task_rule-eq = refl

abbrev before : Sessions
before = record { db = users_only; sessions = [] }

abbrev uuid5 : String → String
uuid5 name = name

abbrev guest : User
guest = record {
  user_id = "usr_ai-cat-controller:usr:guest";
  login_code = "guest";
  nickname = "Guest";
  created_at = morning.now;
  updated_at = morning.now;
}

abbrev after : Sessions
after = (login uuid5 morning "token" "guest" "Guest" before).1

login-eq : login uuid5 morning "token" "guest" "Guest" before ≡ (ok guest, after)
unfolding login login_user upsert_user
login-eq = refl

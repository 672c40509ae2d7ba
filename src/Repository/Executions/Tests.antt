-- ===== src/Repository/Executions/Tests.antt =====
-- The laws of the action executions at work on a small database.
use ai_cat_controller.Base.{◌≡◌, refl, true, none, some}
use ai_cat_controller.Exec.{ok}
use ai_cat_controller.Repository.Schema.{Status, Database}
use ai_cat_controller.Repository.Samples.{morning, one_pet}
use ai_cat_controller.Repository.Tables.{owned_pet_row}
use ai_cat_controller.Repository.Executions.{
  ExecutionRequest, ExecutionUpdate, new_execution, create_or_find, create_action_execution,
}
use ai_cat_controller.Repository.Executions.Requests.{with_execution}

abbrev nod : ExecutionRequest
nod = record { user_id = "u1"; pet_id = "p1"; action_id = "head_nod"; request_id = "r1" }

abbrev asked : Database
asked = with_execution morning nod one_pet

nod-eq : create_action_execution morning nod one_pet ≡ (ok (new_execution morning nod, true), asked)
unfolding create_action_execution create_or_find owned_pet_row
nod-eq = refl

abbrev done : ExecutionUpdate
done = record { status = Status.completed; result = some "completed"; error = none }

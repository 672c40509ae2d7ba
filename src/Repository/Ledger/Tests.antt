-- ===== src/Repository/Ledger/Tests.antt =====
-- The balance after a history with a reward, a repeated request and a loss.
use ai_cat_controller.Base.{String, List, [], ◌∷◌}
use ai_cat_controller.Base.Int.{ℤ, pos, negsuc}
use ai_cat_controller.Repository.Schema.{empty}
use ai_cat_controller.Repository.Samples.{morning, evening}
use ai_cat_controller.Repository.Tables.{stable_id}
use ai_cat_controller.Repository.Pets.{pet_id_of}
use ai_cat_controller.Repository.Interactions.{Interaction}
use ai_cat_controller.Repository.Ledger.{IsBalanced}
use ai_cat_controller.Repository.Ledger.Histories.{
  Call, login, bind, interaction, history, history-IsBalanced,
}

abbrev uuid5 : String → String
uuid5 text = text

abbrev user_id : String
user_id = stable_id uuid5 "usr" "u1"

abbrev request : String → ℤ → String → Interaction
request event_type base_points request_id = record {
  user_id = user_id;
  pet_id = pet_id_of uuid5 "SN1";
  event_type = event_type;
  base_points = base_points;
  max_per_day = 2;
  daily_cap = pos 5;
  request_id = request_id;
  metadata_json = "{}";
}

abbrev calls : List Call
calls =
    login morning "u1" "Ann"
    ∷ bind morning (record {
      user_id = user_id;
      serial_number = "SN1";
      pet_name = "Xiao An";
      network_name = "home";
      personality_id = "proud_star";
    })
    ∷ interaction morning (request "touch" (pos 4) "r1")
    ∷ interaction evening (request "touch" (pos 4) "r1")
    ∷ interaction evening (request "ignored_greeting" (negsuc 5) "r2")
    ∷ []

history-IsBalanced_example : IsBalanced (history uuid5 calls empty)
history-IsBalanced_example = history-IsBalanced uuid5 calls

-- ===== src/Repository/Schema.antt =====
-- The tables that `initialize` creates, as rows in order of insertion. A column that the code only
-- reads and writes as a truth value is a `Bool`, and `metadata_json` is the text that is stored.
use ai_cat_controller.Base.{String, Bool, Option, List, []}
use ai_cat_controller.Base.Int.{ℤ}

pub record User : Type 0 where
  pub user_id : String
  pub login_code : String
  pub nickname : String
  pub created_at : String
  pub updated_at : String

pub record Device : Type 0 where
  pub device_id : String
  pub serial_number : String
  pub online : Bool
  pub battery_percent : ℤ
  pub charging : Bool
  pub network_status : String
  pub network_name : String
  pub volume : ℤ
  pub last_seen_at : String
  pub created_at : String

pub record Pet : Type 0 where
  pub pet_id : String
  pub device_id : String
  pub owner_user_id : Option String
  pub name : String
  pub personality_id : String
  pub intimacy_points : ℤ
  pub bound_at : Option String
  pub created_at : String

pub record InteractionEvent : Type 0 where
  pub event_id : String
  pub pet_id : String
  pub user_id : String
  pub event_type : String
  pub points_delta : ℤ
  pub points_after : ℤ
  pub request_id : String
  pub reason : Option String
  pub metadata_json : String
  pub created_at : String

pub data Role : Type 0 where
  user assistant : Role

pub record Message : Type 0 where
  pub message_id : String
  pub conversation_id : String
  pub pet_id : String
  pub user_id : String
  pub role : Role
  pub content : String
  pub voice_id : Option String
  pub created_at : String

-- The texts that the column `status` of `action_executions` takes.
pub data Status : Type 0 where
  pending running completed cancelled failed timed_out : Status

pub record ActionExecution : Type 0 where
  pub execution_id : String
  pub pet_id : String
  pub user_id : String
  pub action_id : String
  pub request_id : String
  pub status : Status
  pub result : Option String
  pub error : Option String
  pub created_at : String
  pub completed_at : Option String

pub record Feedback : Type 0 where
  pub feedback_id : String
  pub pet_id : String
  pub user_id : String
  pub category : String
  pub content : String
  pub created_at : String

pub record Database : Type 0 where
  pub users : List User
  pub devices : List Device
  pub pets : List Pet
  pub interaction_events : List InteractionEvent
  pub dialog_history : List Message
  pub action_executions : List ActionExecution
  pub feedback : List Feedback

-- What `initialize` leaves in a new file.
abbrev pub empty : Database
empty = record {
  users = [];
  devices = [];
  pets = [];
  interaction_events = [];
  dialog_history = [];
  action_executions = [];
  feedback = [];
}

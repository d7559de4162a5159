-- ===== src/Model.antt =====
-- backend/internal/model: the records that the services pass about. A nullable pointer is an
-- `Option`; a time is its number of nanoseconds.
use task_flow_alisha_sharma.Common.{ℕ, String, Option, List, Bool}

pub record User : Type 0 where
  pub id : String
  pub name : String
  pub email : String
  pub password : String
  pub created_at : ℕ

pub record Project : Type 0 where
  pub id : String
  pub name : String
  pub description : Option String
  pub owner_id : String
  pub created_at : ℕ

pub record Task : Type 0 where
  pub id : String
  pub title : String
  pub description : Option String
  pub status : String
  pub priority : String
  pub project_id : String
  pub creator_id : String
  pub assignee_id : Option String
  pub due_date : Option String
  pub version : ℕ
  pub created_at : ℕ
  pub updated_at : ℕ

pub record WebhookSubscription : Type 0 where
  pub id : String
  pub user_id : String
  pub url : String
  pub secret : String
  pub event_types : List String
  pub project_ids : List String
  pub active : Bool
  pub created_at : ℕ

-- repository.RefreshToken
pub record RefreshToken : Type 0 where
  pub id : String
  pub user_id : String
  pub token_hash : String
  pub expires_at : ℕ
  pub created_at : ℕ

pub data EventType : Type 0 where
  task_created task_updated task_deleted project_updated project_deleted : EventType

abbrev pub event_name : EventType → String
event_name task_created = "task.created"
event_name task_updated = "task.updated"
event_name task_deleted = "task.deleted"
event_name project_updated = "project.updated"
event_name project_deleted = "project.deleted"

-- What `Event.Payload` holds: a task, a project or nil, or the map with the deleted id.
pub data Payload : Type 0 where
  of_task : Task → Payload
  of_project : Option Project → Payload
  of_id : String → Payload

pub record Event : Type 0 where
  pub job_id : String
  pub kind : EventType
  pub project_id : String
  pub actor_id : String
  pub payload : Payload
  pub timestamp : ℕ

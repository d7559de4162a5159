-- ===== src/Validator/Rules.antt =====
-- The tags of the requests, field by field: backend/internal/dto/*.go.
use task_flow_alisha_sharma.Common.{String, List, [], ◌∷◌}
use task_flow_alisha_sharma.Validator.{Tag, Value, Rule, text, text?, number, texts}
use task_flow_alisha_sharma.Service.Auth.{RegisterRequest, LoginRequest}
use task_flow_alisha_sharma.Service.Projects.{CreateProjectRequest, UpdateProjectRequest}
use task_flow_alisha_sharma.Service.Tasks.{CreateTaskRequest, UpdateTaskRequest}

abbrev bare : String → Tag
bare name = record { name = name; param = "" }

abbrev with_param : String → String → Tag
with_param name param = record { name = name; param = param }

abbrev required : Tag
required = bare "required"

abbrev omitempty : Tag
omitempty = bare "omitempty"

abbrev uuid4 : Tag
uuid4 = bare "uuid4"

abbrev at_least : String → Tag
at_least n = with_param "min" n

abbrev at_most : String → Tag
at_most n = with_param "max" n

abbrev one_of : String → Tag
one_of options = with_param "oneof" options

abbrev rule : String → List Tag → Value → Rule
rule field tags value = record { field = field; tags = tags; value = value }

unfoldable pub register_rules : RegisterRequest → List Rule
register_rules r =
    rule "Name" (required ∷ at_least "2" ∷ at_most "100" ∷ []) (text r.name)
    ∷ rule "Email" (required ∷ bare "email" ∷ []) (text r.email)
    ∷ rule "Password" (required ∷ at_least "8" ∷ at_most "128" ∷ []) (text r.password)
    ∷ []

unfoldable pub login_rules : LoginRequest → List Rule
login_rules r =
    rule "Email" (required ∷ bare "email" ∷ []) (text r.email)
    ∷ rule "Password" (required ∷ []) (text r.password)
    ∷ []

unfoldable pub create_project_rules : CreateProjectRequest → List Rule
create_project_rules r =
    rule "Name" (required ∷ at_least "1" ∷ at_most "255" ∷ []) (text r.name)
    ∷ rule "Description" (omitempty ∷ at_most "2000" ∷ []) (text? r.description)
    ∷ []

unfoldable pub update_project_rules : UpdateProjectRequest → List Rule
update_project_rules r =
    rule "Name" (omitempty ∷ at_least "1" ∷ at_most "255" ∷ []) (text? r.name)
    ∷ rule "Description" (omitempty ∷ at_most "2000" ∷ []) (text? r.description)
    ∷ []

unfoldable pub create_task_rules : CreateTaskRequest → List Rule
create_task_rules r =
    rule "Title" (required ∷ at_least "1" ∷ at_most "255" ∷ []) (text r.title)
    ∷ rule "Description" (omitempty ∷ at_most "2000" ∷ []) (text? r.description)
    ∷ rule "Priority" (omitempty ∷ one_of "low medium high" ∷ []) (text r.priority)
    ∷ rule "AssigneeID" (omitempty ∷ uuid4 ∷ []) (text? r.assignee_id)
    ∷ rule "DueDate" (omitempty ∷ []) (text? r.due_date)
    ∷ []

unfoldable pub update_task_rules : UpdateTaskRequest → List Rule
update_task_rules r =
    rule "Title" (omitempty ∷ at_least "1" ∷ at_most "255" ∷ []) (text? r.title)
    ∷ rule "Description" (omitempty ∷ at_most "2000" ∷ []) (text? r.description)
    ∷ rule "Status" (omitempty ∷ one_of "todo in_progress done" ∷ []) (text? r.status)
    ∷ rule "Priority" (omitempty ∷ one_of "low medium high" ∷ []) (text? r.priority)
    ∷ rule "AssigneeID" (omitempty ∷ uuid4 ∷ []) (text? r.assignee_id)
    ∷ rule "DueDate" (omitempty ∷ []) (text? r.due_date)
    ∷ rule "Version" (required ∷ at_least "1" ∷ []) (number r.version)
    ∷ []

pub record CreateWebhookRequest : Type 0 where
  pub url : String
  pub secret : String
  pub event_types : List String
  pub project_ids : List String

unfoldable pub create_webhook_rules : CreateWebhookRequest → List Rule
create_webhook_rules r =
    rule "URL" (required ∷ bare "url" ∷ []) (text r.url)
    ∷ rule "Secret" (required ∷ at_least "16" ∷ at_most "256" ∷ []) (text r.secret)
    ∷ rule "EventTypes"
        (required
          ∷ at_least "1"
          ∷ bare "dive"
          ∷ one_of "task.created task.updated task.deleted project.updated project.deleted"
          ∷ [])
        (texts r.event_types)
    ∷ rule "ProjectIDs" (required ∷ at_least "1" ∷ bare "dive" ∷ uuid4 ∷ []) (texts r.project_ids)
    ∷ []

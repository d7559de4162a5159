-- ===== src/Validator/Tests.antt =====
-- The names under which a validation error is reported, of two fields of a request.
use task_flow_alisha_sharma.Common.{◌≡◌, refl}
use task_flow_alisha_sharma.Validator.{to_snake_case}
use task_flow_alisha_sharma.Common.Text.{to_lower}

due_date_name : to_snake_case "DueDate" ≡ "due_date"
unfolding to_snake_case to_lower
due_date_name = refl

assignee_name : to_snake_case "AssigneeID" ≡ "assignee_i_d"
unfolding to_snake_case to_lower
assignee_name = refl

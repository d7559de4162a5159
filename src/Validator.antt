-- ===== src/Validator.antt =====
-- backend/internal/validator/validator.go, and the `validate` tags of dto/*.go. The library that
-- checks the tags is not part of the repository: `Checker` is its answer, the fields that fail, each
-- with the tag it fails on.
pub mod Rules
mod Tests
use task_flow_alisha_sharma.Common.{
  String, Option, none, some, Bool, List, [], ◌∷◌, ◌==◌, if◌then◌else◌,
}
use task_flow_alisha_sharma.Common.Int.{ℤ}
use task_flow_alisha_sharma.Common.Text.{text_cons, is_upper, to_lower, ◌<>◌}
use task_flow_alisha_sharma.Common.Dict.{Dict, insert}
use task_flow_alisha_sharma.Common.Exec.{Result, ok, err}
use task_flow_alisha_sharma.AppError.{AppError, validation}
use Prim.Native.String

pub record Tag : Type 0 where
  pub name : String
  pub param : String

-- The Go value of a field.
pub data Value : Type 0 where
  text : String → Value
  text? : Option String → Value
  number : ℤ → Value
  texts : List String → Value

pub record Rule : Type 0 where
  pub field : String
  pub tags : List Tag
  pub value : Value

pub record FieldError : Type 0 where
  pub field : String
  pub tag : Tag

abbrev pub Checker : Type 0
Checker = List Rule → List FieldError

-- An underscore before each upper-case letter but the first of the text.
underscored : String → String
underscored String.[] = ""
underscored (String.◌∷◌ c s) =
    let rest = underscored s in if is_upper c then "_" <> text_cons c rest else text_cons c rest

first_kept : String → String
unfolding underscored
first_kept String.[] = ""
first_kept (String.◌∷◌ c s) = text_cons c (underscored s)

unfoldable pub to_snake_case : String → String
unfolding first_kept
to_snake_case s = to_lower (first_kept s)

unfoldable pub format_message : Tag → String
format_message t =
    if t.name == "required"
    then "is required"
    else if t.name == "email"
    then "must be a valid email address"
    else if t.name == "min"
    then "must be at least " <> t.param <> " characters"
    else if t.name == "max"
    then "must be at most " <> t.param <> " characters"
    else if t.name == "oneof"
    then "must be one of: " <> t.param
    else if t.name == "uuid4"
    then "must be a valid UUID"
    else if t.name == "url"
    then "must be a valid URL"
    else "failed on " <> t.name <> " validation"

unfoldable pub field_messages : List FieldError → Dict String → Dict String
field_messages [] fields = fields
field_messages (e ∷ es) fields =
    field_messages es (insert (to_snake_case e.field) (format_message e.tag) fields)

abbrev pub verdict_of : List FieldError → Result AppError (Unit {0})
verdict_of [] = ok tt
verdict_of (e ∷ es) = err (validation (field_messages (e ∷ es) []))

-- `Validate`. The library returns no other error, since every request is a struct.
abbrev pub validate : Checker → List Rule → Result AppError (Unit {0})
validate check rules = verdict_of (check rules)

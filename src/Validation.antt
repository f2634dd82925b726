-- ===== src/Validation.antt =====
-- pkg/validation/validator.go, over go-playground/validator as an interface.
pub mod Example
pub mod Rules
mod Tests
use Prim.Native.Char.{Char, code}
use Prim.Native.String
use enterprise_middleware_go.Prelude.{
  ℕ, String, ◌≡◌, Bool, true, false, not, ◌&&◌, ◌||◌, List, [], ◌∷◌, Option, none, some, ltb, leb,
  ◌==◌, if◌then◌else◌,
}
use enterprise_middleware_go.Grpc.{FieldViolation, StatusLib}
use enterprise_middleware_go.Errors.{validation_error, internal_error}

-- regexp.MatchString for a class of characters: some character is in it.
unfoldable pub some_char : (Char → Bool) → String → Bool
some_char p String.[] = false
some_char p (String.◌∷◌ c s) = p c || some_char p s

abbrev pub is_lower : Char → Bool
is_lower c = leb b'a' (code c) && leb (code c) b'z'

abbrev pub is_upper : Char → Bool
is_upper c = leb b'A' (code c) && leb (code c) b'Z'

abbrev pub is_digit : Char → Bool
is_digit c = leb b'0' (code c) && leb (code c) b'9'

abbrev pub is_special : Char → Bool
is_special c = not (is_lower c || is_upper c || is_digit c)

-- The custom rule "password" of NewValidator; len counts bytes.
unfoldable pub password_rule : String → Bool
unfolding some_char
password_rule s =
    if ltb (String.len s) 12
    then false
    else some_char is_lower s
      && some_char is_upper s
      && some_char is_digit s
      && some_char is_special s

-- tagMessage
unfoldable pub tag_message : String → String
tag_message tag =
    if tag == "required"
    then "This field is required."
    else if tag == "email"
    then "Please enter a valid email address."
    else if tag == "min"
    then "This value is too short."
    else if tag == "max"
    then "This value is too long."
    else if tag == "password"
    then "Password must be at least 12 characters and include uppercase, lowercase, a number, and a special character."
    else "This value is invalid."

-- The rules of a struct tag, as the code uses them.
pub data Rule : Type 0 where
  rule_required rule_email rule_password : Rule
  min_runes max_runes : ℕ → Rule

pub record Field : Type 0 where
  pub name : String
  pub value : String
  pub rules : List Rule

pub record FieldError : Type 0 where
  pub field : String
  pub tag : String

-- What validate.Struct returns.
pub data StructResult : Type 0 where
  valid : StructResult
  validation_errors : List FieldError → StructResult
  other_error : StructResult

-- Documented of the library: "required" fails for "", "min" and "max" count runes, and the errors
-- name, in the order of the fields, each field that fails with the first of its tags that does.
module _ (is_email custom : String → Bool) where
  abbrev pub failing_tag : String → Rule → Option String
  failing_tag s rule_required = if s == "" then some "required" else none
  failing_tag s rule_email = if is_email s then none else some "email"
  failing_tag s rule_password = if custom s then none else some "password"
  failing_tag s (min_runes n) = if ltb (String.count s) n then some "min" else none
  failing_tag s (max_runes n) = if ltb n (String.count s) then some "max" else none

  abbrev pub first_tag : String → List Rule → Option String
  first_tag s [] = none
  first_tag s (rule ∷ rules) = elim (failing_tag s rule) [
    | some tag ↦ some tag
    | none ↦ first_tag s rules
  ]

  abbrev pub field_errors : List Field → List FieldError
  field_errors [] = []
  field_errors (f ∷ fs) = elim (first_tag f.value f.rules) [
    | some tag ↦ record { field = f.name; tag = tag } ∷ field_errors fs
    | none ↦ field_errors fs
  ]

abbrev pub struct_result : List FieldError → StructResult
struct_result [] = valid
struct_result (e ∷ es) = validation_errors (e ∷ es)

pub record ValidatorLib : Type 0 where
  pub is_email : String → Bool
  -- Struct, with the custom rule "password" registered
  pub struct_check : (String → Bool) → List Field → StructResult
  pub struct_check_lem :
      (custom : String → Bool) (fs : List Field)
      → struct_check custom fs ≡ struct_result (field_errors is_email custom fs)

-- The anonymous struct of ValidateRegister with its tags.
abbrev pub register_fields : String → String → String → List Field
register_fields e u p =
    record { name = "Email"; value = e; rules = rule_required ∷ rule_email ∷ [] }
    ∷ record {
      name = "Username";
      value = u;
      rules = rule_required ∷ min_runes 3 ∷ max_runes 32 ∷ [];
    }
    ∷ record { name = "Password"; value = p; rules = rule_required ∷ rule_password ∷ [] }
    ∷ []

-- The loop over the errors.
unfoldable pub violations_of : List FieldError → List FieldViolation
unfolding tag_message
violations_of [] = []
violations_of (fe ∷ verrs) =
    record { field = fe.field; description = tag_message fe.tag } ∷ violations_of verrs

-- ValidateRegister
unfoldable pub validate_register :
    (G : StatusLib) → ValidatorLib → String → String → String → String → Option G.Error
unfolding violations_of
validate_register G V request_id email username password =
    elim (V.struct_check password_rule (register_fields email username password)) [
      | valid ↦ none
      | validation_errors verrs ↦ validation_error G request_id (violations_of verrs)
      | other_error ↦ internal_error G request_id
    ]

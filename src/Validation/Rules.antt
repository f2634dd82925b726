-- ===== src/Validation/Rules.antt =====
-- pkg/validation/validator.go: what ValidateRegister refuses, field by field.
use Prim.Native.Char.{code}
use Prim.Native.String
use enterprise_middleware_go.Prelude.{
  ℕ, leb, not, ◌&&◌, ◌||◌, false, String, ◌≡◌, refl, ap, ◌∙◌, Bool, List, [], ◌∷◌, ◌++◌, Option,
  none, ltb, ◌==◌, if◌then◌else◌, arith,
}
use enterprise_middleware_go.Grpc.{FieldViolation, StatusLib}
use enterprise_middleware_go.Errors.{validation_error}
use enterprise_middleware_go.Validation.{
  password_rule, some_char, is_special, tag_message, field_errors, register_fields, ValidatorLib,
  violations_of, validate_register, struct_result, FieldError,
}

-- Some character has a code from the first to the last.
abbrev pub has_between : ℕ → ℕ → String → Bool
has_between first last String.[] = false
has_between first last (String.◌∷◌ c s) =
    (leb first (code c) && leb (code c) last) || has_between first last s

-- Some character is no ASCII letter and no digit.
abbrev pub has_other : String → Bool
has_other String.[] = false
has_other (String.◌∷◌ c s) =
    not (
      (leb 97 (code c) && leb (code c) 122)
      || (leb 65 (code c) && leb (code c) 90)
      || (leb 48 (code c) && leb (code c) 57))
    || has_other s

-- Twelve bytes, a lower-case and an upper-case letter, a digit and another character.
abbrev pub is_strong : String → Bool
is_strong s =
    leb 12 (String.len s)
    && has_between 97 122 s
    && has_between 65 90 s
    && has_between 48 57 s
    && has_other s

-- What is wrong with one field, in the words of the answer.
abbrev pub wrong : String → String → FieldViolation
wrong name description = record { field = name; description = description }

abbrev pub wrong_email : (String → Bool) → String → List FieldViolation
wrong_email is_email s =
    if s == ""
    then wrong "Email" "This field is required." ∷ []
    else if is_email s
    then []
    else wrong "Email" "Please enter a valid email address." ∷ []

abbrev pub wrong_username : String → List FieldViolation
wrong_username s =
    if s == ""
    then wrong "Username" "This field is required." ∷ []
    else if ltb (String.count s) 3
    then wrong "Username" "This value is too short." ∷ []
    else if ltb 32 (String.count s)
    then wrong "Username" "This value is too long." ∷ []
    else []

abbrev pub wrong_password : String → List FieldViolation
wrong_password s =
    if s == ""
    then wrong "Password" "This field is required." ∷ []
    else if is_strong s
    then []
    else wrong "Password"
        "Password must be at least 12 characters and include uppercase, lowercase, a number, and a special character."
      ∷ []

-- The rule of the code is this one.
some_char-has_between :
    (first last : ℕ) (s : String)
    → some_char (λ c. leb first (code c) && leb (code c) last) s ≡ has_between first last s
unfolding some_char
some_char-has_between first last String.[] = refl
some_char-has_between first last (String.◌∷◌ c s) = rw (some_char-has_between first last s) refl

some_char-has_other : (s : String) → some_char is_special s ≡ has_other s
unfolding some_char
some_char-has_other String.[] = refl
some_char-has_other (String.◌∷◌ c s) = rw (some_char-has_other s) refl

password_rule-is_strong : (s : String) → password_rule s ≡ is_strong s
unfolding password_rule
password_rule-is_strong s = ground (
  arith,
  some_char-has_between 97 122 s,
  some_char-has_between 65 90 s,
  some_char-has_between 48 57 s,
  some_char-has_other s,
)

-- Every violation of a registration, in the order of the fields.
abbrev pub register_violations : (String → Bool) → String → String → String → List FieldViolation
register_violations is_email e u p = wrong_email is_email e ++ wrong_username u ++ wrong_password p

-- No error, or the validation error of the violations.
abbrev pub refused_for : (G : StatusLib) → String → List FieldViolation → Option G.Error
refused_for G request_id [] = none
refused_for G request_id (v ∷ vs) = validation_error G request_id (v ∷ vs)

violations_of-field_errors :
    (is_email : String → Bool) (e u p : String)
    → violations_of (field_errors is_email password_rule (register_fields e u p))
      ≡ register_violations is_email e u p
unfolding violations_of tag_message
violations_of-field_errors is_email e u p = ground (arith, password_rule-is_strong p)

refused_struct :
    (G : StatusLib) (V : ValidatorLib) (request_id e u p : String) (errs : List FieldError)
    → V.struct_check password_rule (register_fields e u p) ≡ struct_result errs
    → validate_register G V request_id e u p ≡ refused_for G request_id (violations_of errs)
unfolding validate_register violations_of
refused_struct G V request_id e u p [] h = rw (h, validate_register) refl
refused_struct G V request_id e u p (x ∷ xs) h = rw (h, validate_register) refl

-- ValidateRegister accepts an e-mail, a user name and a password that break none of the rules
-- (e-mail present and well formed; 3 to 32 characters; password of twelve bytes with a lower-case
-- letter, an upper-case letter, a digit and another character) and otherwise answers the
-- validation error that lists, in the order of the fields, the first rule that each field breaks.
pub validate_register-refused_for :
    (G : StatusLib) (V : ValidatorLib) (request_id e u p : String)
    → validate_register G V request_id e u p
      ≡ refused_for G request_id (register_violations V.is_email e u p)
validate_register-refused_for G V request_id e u p =
    refused_struct G V request_id e u p
      (field_errors V.is_email password_rule (register_fields e u p)) (V.struct_check_lem _ _)
    ∙ ap (refused_for G request_id) (violations_of-field_errors V.is_email e u p)

-- ===== src/Validation/Tests.antt =====
-- A weak registration, before the example platform's first call.

use enterprise_middleware_go.Prelude.{◌≡◌, refl, true, false, [], ◌∷◌}
use enterprise_middleware_go.Grpc.Example.{plain}
use enterprise_middleware_go.Validation.{password_rule, validate_register}
use enterprise_middleware_go.Validation.Example.{library}
use enterprise_middleware_go.Validation.Rules.{validate_register-refused_for, refused_for, wrong}

strong : password_rule "Correct-Horse-9" ≡ true
unfolding password_rule
strong = refl

no_digit : password_rule "Correct-Horse-Staple" ≡ false
unfolding password_rule
no_digit = refl

validate_register-refused_for_example :
    validate_register plain library "r-1" "alice" "al" "secret"
    ≡ refused_for plain "r-1" (
        wrong "Email" "Please enter a valid email address."
        ∷ wrong "Username" "This value is too short."
        ∷ wrong "Password"
            "Password must be at least 12 characters and include uppercase, lowercase, a number, and a special character."
        ∷ [])
unfolding password_rule
validate_register-refused_for_example =
    validate_register-refused_for plain library "r-1" "alice" "al" "secret"

-- ===== src/Validation/Example.antt =====
-- A validator library that knows one e-mail address.

use enterprise_middleware_go.Prelude.{refl, ◌==◌}
use enterprise_middleware_go.Validation.{ValidatorLib, struct_result, field_errors}

abbrev pub library : ValidatorLib
library = record {
  is_email = λ s. s == "alice@example.com";
  struct_check =
      λ custom fs. struct_result (field_errors (λ s. s == "alice@example.com") custom fs);
  struct_check_lem = λ custom fs. refl;
}

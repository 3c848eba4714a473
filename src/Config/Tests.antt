-- ===== src/Config/Tests.antt =====
-- The theorems about the configuration at concrete inputs.
use flowdb.Base.{◌≡◌, ◌↔◌, refl}
use flowdb.Config.{default, ok, validate}
use flowdb.Config.Validate.{IsValid, validate_iff}

validate-default : validate default ≡ ok tt
unfolding validate
validate-default = refl

validate_iff_example : (validate default ≡ ok tt) ↔ IsValid default
validate_iff_example = validate_iff default

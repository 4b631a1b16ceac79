-- ===== src/Errors/Examples.antt =====
-- Theorems of the errors (src/istos/errors.py) at concrete errors.
use istos.Prelude.{◌≡◌, refl, true, false, none, some, if◌then◌else◌}
use istos.Json.{null, text, object, truthy}
use istos.Errors.{
  IstosError, ErrorResponse, not_found, construct, new_error, reply_decode, application,
  is_retryable, to_dict, from_istos_error, is_error_payload, error_from_payload, code_to_status,
}
use istos.Errors.Wire.{IsOf, error_response_crosses, retry_rule_crosses, decode_error_crosses}

abbrev response : ErrorResponse
response = record {
  error = text "conflict";
  code = text "conflict";
  message = text "in flight";
  correlation_id = text "";
  details = null;
}

error_response_crosses_example :
    (is_error_payload (object (to_dict response)) ≡ true)
    × (b : IstosError) × (error_from_payload (to_dict response) "internal_error" ≡ some b)
    × IsOf "conflict" (text "in flight") null (if truthy (text "") then text "" else null) b
error_response_crosses_example = error_response_crosses response "conflict" "internal_error" refl

abbrev missing : IstosError
missing = record (new_error not_found "not_found" 404 (text "no such key") null null) {
  retryable = none;
}

retry_rule_crosses_example :
    (b : IstosError) × (error_from_payload (to_dict (from_istos_error missing)) "internal_error"
      ≡ some b)
    × (b.code ≡ missing.code)
    × (b.status ≡ missing.status)
    × (b.message ≡ missing.message)
    × (b.details ≡ missing.details)
    × (is_retryable (application b) ≡ is_retryable (application missing))
unfolding new_error code_to_status
retry_rule_crosses_example = retry_rule_crosses missing "not_found" "internal_error" refl refl refl

decode_error_crosses_example :
    let e = construct reply_decode (text "bad bytes") null null in
    (is_retryable (application e) ≡ false)
    × ((b : IstosError) × (error_from_payload (to_dict (from_istos_error e)) "internal_error"
          ≡ some b)
        × (is_retryable (application b) ≡ true))
decode_error_crosses_example = decode_error_crosses (text "bad bytes") null null "internal_error"

-- ===== src/Http/Examples.antt =====
-- The lemmas on addresses at concrete inputs.
use omni_stats.Prelude.{◌≡◌, refl, true}
use omni_stats.Prelude.Text.{lowered, Text, codes, to_lower}
use omni_stats.Http.{
  ParsedUrl, parse_url, stoi, to_string, read_digits, digits, resolve_redirect_url,
  validate_redirect, judge_redirect, host_port, effective_port, is_same_origin,
  is_allowed_sensitive_url,
}
use omni_stats.Http.Parse.{IsAddress, parse_url-IsAddress}
use omni_stats.Http.Redirect.{IsSafeStep, validate_redirect_lem}

abbrev current : Text
current = codes "https://Api.example:8443/v1/me?x=1#top"

abbrev location : Text
location = codes "/v2"

allowed : (validate_redirect current location true).allowed ≡ true
unfolding validate_redirect judge_redirect resolve_redirect_url parse_url lowered to_lower host_port
    effective_port is_same_origin is_allowed_sensitive_url read_digits digits
allowed = refl

validate_redirect_example :
    let result = validate_redirect current location true in
    (result.resolved_url ≡ resolve_redirect_url current location)
    × IsSafeStep (parse_url current) (parse_url result.resolved_url) true
validate_redirect_example = validate_redirect_lem current location true allowed

current_valid : (parse_url current).valid ≡ true
unfolding parse_url lowered to_lower read_digits
current_valid = refl

parse_url-IsAddress_example : IsAddress (parse_url current)
parse_url-IsAddress_example = parse_url-IsAddress current current_valid

-- A host that only starts like the loopback network may be sent sensitive requests without
-- encryption.
remote_allowed : (is_allowed_sensitive_url (parse_url (codes "http://127.evil.example/"))).0 ≡ true
unfolding is_allowed_sensitive_url parse_url lowered to_lower omni_stats.Http.is_loopback_host
remote_allowed = refl

-- ===== src/Http.antt =====
-- src/network/http/HttpSecurity.{hpp,cpp}: which web addresses and redirects a request may use. Text
-- is bytes; what `std::stoi` and `std::to_string` do with it is written out for a 32-bit `int`.
pub mod Redirect
pub mod Parse
mod Examples
use omni_stats.Prelude.{
  ℕ, zero, suc, ◌+◌, ◌-◌, ◌*◌, ◌/◌, ◌%◌, ◌^◌, Bool, true, false, ◌&&◌, ◌||◌, not, List, [], ◌∷◌,
  ◌++◌, Option, none, some, ltb, leb, ◌==◌, if◌then◌else◌, is_empty, is_some, any_of, map, drop,
}
use omni_stats.Prelude.Int.{ℤ, pos, negsuc, ◌-ℤ◌, ltb_ℤ, eqb_ℤ}
use omni_stats.Prelude.Text.{
  Text, codes, text_eq, is_digit, is_space, to_lower, starts_with, split_at_text, contains_text,
  split_where, trim_front, lowered, trim, up_to, is_char, trim_back,
}

pub record ParsedUrl : Type 0 where
  pub scheme : Text
  pub host : Text
  pub port : ℤ
  pub path : Text
  pub query : Text
  pub valid : Bool

abbrev pub blank_url : ParsedUrl
blank_url = record { scheme = []; host = []; port = pos 0; path = []; query = []; valid = false }

unfoldable pub effective_port : ParsedUrl → ℤ
effective_port url =
    if ltb_ℤ (pos 0) url.port
    then url.port
    else if text_eq url.scheme (codes "https")
    then pos 443
    else if text_eq url.scheme (codes "http")
    then pos 80
    else pos 0

abbrev pub value_of_digit : ℕ → ℕ
value_of_digit c = c - b'0'

-- The number that the digits in front stand for, after those that came to `n`.
unfoldable pub read_digits : ℕ → Text → ℕ
read_digits n [] = n
read_digits n (c ∷ s) =
    let rest = read_digits (10 * n + value_of_digit c) s in if is_digit c then rest else n

abbrev pub starts_with_digit : Text → Bool
starts_with_digit [] = false
starts_with_digit (c ∷ s) = is_digit c

-- `none` where `std::stoi` throws: no digit, or out of range.
abbrev pub unsigned : Text → Option ℤ
unfolding read_digits
unsigned s =
    if starts_with_digit s && ltb (read_digits 0 s) (2 ^ 31)
    then some (pos (read_digits 0 s))
    else none

abbrev pub negated : Text → Option ℤ
unfolding read_digits
negated s =
    if starts_with_digit s && leb (read_digits 0 s) (2 ^ 31)
    then some (pos 0 -ℤ pos (read_digits 0 s))
    else none

abbrev pub signed : Text → Option ℤ
signed [] = none
signed (c ∷ s) = if c == b'-' then negated s else if c == b'+' then unsigned s else unsigned (c ∷ s)

abbrev pub stoi : Text → Option ℤ
stoi s = signed (trim_front s)

-- The decimal digits; a positive `int` has at most ten.
unfoldable pub digits : ℕ → ℕ → Text
digits zero n = []
digits (suc fuel) n =
    let front = digits fuel (n / 10) in
    if ltb n 10 then (b'0' + n) ∷ [] else front ++ (b'0' + n % 10) ∷ []

abbrev pub to_string : ℤ → Text
to_string (pos n) = digits 10 n
to_string (negsuc n) = b'-' ∷ digits 10 (suc n)

abbrev pub from : (ℕ → Bool) → Text → Text
from p s = elim (split_where p s) [ none ↦ [] | some (a, b) ↦ b ]

abbrev pub starts_path : ℕ → Bool
starts_path c = c == b'/' || c == b'?' || c == b'#'

abbrev pub ends_path : ℕ → Bool
ends_path c = c == b'?' || c == b'#'

-- A step of `ParseUrl`: the result so far, and whether it goes on.
abbrev pub with_port : Text → ParsedUrl → ParsedUrl × Bool
with_port s result = elim (stoi s) [
  | none ↦ (result, false)
  | some n ↦ (record result { port = n }, true)
]

-- `afterBracket`.
abbrev pub after_bracket : Text → ParsedUrl → ParsedUrl × Bool
after_bracket [] result = (result, true)
after_bracket (c ∷ s) result = if c == b':' then with_port s result else (result, true)

abbrev pub bracketed : Text → ParsedUrl → ParsedUrl × Bool
bracketed authority result = elim (split_where (is_char b']') authority) [
  | none ↦ (result, false)
  | some (a, b) ↦ after_bracket (drop 1 b) (record result { host = lowered (a ++ b']' ∷ []) })
]

abbrev pub plain_host : Text → ParsedUrl → ParsedUrl × Bool
plain_host authority result = elim (split_where (is_char b':') authority) [
  | none ↦ (record result { host = lowered authority }, true)
  | some (a, b) ↦ with_port (drop 1 b) (record result { host = lowered a })
]

abbrev pub read_authority : Text → ParsedUrl → ParsedUrl × Bool
read_authority [] result = (result, false)
read_authority (c ∷ s) result =
    if c == b'[' then bracketed (c ∷ s) result else plain_host (c ∷ s) result

abbrev pub path_of : Text → Text
path_of s = if starts_with s (codes "/") then s else b'/' ∷ s

-- The query goes up to the fragment, if this follows it.
abbrev pub query_of : Text → Text
query_of s = elim (split_where (is_char b'?') s) [
  | none ↦ []
  | some (a, b) ↦ if any_of (is_char b'#') a then drop 1 b else up_to (is_char b'#') (drop 1 b)
]

abbrev pub read_path : Text → ParsedUrl × Bool → ParsedUrl
read_path s (result, goes_on) =
    if not goes_on || is_empty result.host
    then result
    else record result { path = path_of (up_to ends_path s); query = query_of s; valid = true }

-- The authority without the user information.
abbrev pub without_userinfo : Text → Text
without_userinfo s = elim (split_where (is_char b'@') s) [ none ↦ s | some (a, b) ↦ drop 1 b ]

-- After the scheme.
abbrev pub read_rest : Text → Text → ParsedUrl
read_rest scheme rest = read_path (from starts_path rest) (
    read_authority (without_userinfo (up_to starts_path rest))
      (record blank_url { scheme = lowered scheme }))

abbrev pub read_split : Option (Text × Text) → ParsedUrl
read_split none = blank_url
read_split (some (a, b)) = if is_empty a then blank_url else read_rest a (drop 3 b)

unfoldable pub parse_url : Text → ParsedUrl
parse_url raw = read_split (split_at_text (codes "://") (trim raw))

unfoldable pub is_loopback_host : Text → Bool
is_loopback_host host =
    let lower = lowered (trim host) in
    text_eq lower (codes "localhost")
    || text_eq lower (codes "127.0.0.1")
    || text_eq lower (codes "::1")
    || text_eq lower (codes "[::1]")
    || starts_with lower (codes "127.")

-- The answer, and the error where it is refused.
unfoldable pub is_allowed_sensitive_url : ParsedUrl → Bool × Text
is_allowed_sensitive_url url =
    if not url.valid
    then (false, codes "Malformed or invalid URL")
    else if text_eq url.scheme (codes "https")
    then (true, [])
    else if text_eq url.scheme (codes "http")
    then (if is_loopback_host url.host then (true, []) else (
      false,
      codes
          "Plain HTTP is rejected for authenticated requests; HTTPS is required for remote endpoints",
    ))
    else (false, codes "Unsupported URL scheme: must be HTTPS")

unfoldable pub is_same_origin : ParsedUrl → ParsedUrl → Bool
is_same_origin a b =
    a.valid
    && b.valid
    && text_eq a.scheme b.scheme
    && text_eq a.host b.host
    && eqb_ℤ (effective_port a) (effective_port b)

-- Up to the last slash, with it.
abbrev pub through_last_slash : Text → Option Text
through_last_slash [] = none
through_last_slash (c ∷ s) = elim (through_last_slash s) [
  | some p ↦ some (c ∷ p)
  | none ↦ if c == b'/' then some (c ∷ []) else none
]

abbrev pub base_path : Text → Text
base_path s = elim (through_last_slash s) [ some p ↦ p | none ↦ codes "/" ]

unfoldable pub host_port : ParsedUrl → Text
host_port base =
    let standard : Bool =
      (text_eq base.scheme (codes "https") && not (eqb_ℤ base.port (pos 443)))
      || (text_eq base.scheme (codes "http") && not (eqb_ℤ base.port (pos 80))) in
    let printed = base.host ++ codes ":" ++ to_string base.port in
    if ltb_ℤ (pos 0) base.port && not (eqb_ℤ base.port (effective_port base))
    then printed
    else if ltb_ℤ (pos 0) base.port
    then (if standard then printed else base.host)
    else base.host

unfoldable pub resolve_redirect_url : Text → Text → Text
resolve_redirect_url current_url location =
    let loc = trim location in
    let base = parse_url current_url in
    if is_empty loc
    then current_url
    else if contains_text (codes "://") loc
    then loc
    else if not base.valid
    then loc
    else if starts_with loc (codes "//")
    then base.scheme ++ codes ":" ++ loc
    else if starts_with loc (codes "/")
    then base.scheme ++ codes "://" ++ host_port base ++ loc
    else base.scheme ++ codes "://" ++ host_port base ++ base_path base.path ++ loc

pub record RedirectValidationResult : Type 0 where
  pub allowed : Bool
  pub resolved_url : Text
  pub reason : Text

abbrev pub refused : Text → Text → RedirectValidationResult
refused url reason = record { allowed = false; resolved_url = url; reason = reason }

abbrev pub granted : Text → RedirectValidationResult
granted url = record { allowed = true; resolved_url = url; reason = [] }

-- `ValidateRedirect` once the two addresses are parsed.
unfoldable pub judge_redirect : ParsedUrl → ParsedUrl → Text → Bool → RedirectValidationResult
judge_redirect current resolved url is_sensitive =
    if not resolved.valid
    then refused url (codes "Malformed redirect Location destination")
    else if current.valid
        && text_eq current.scheme (codes "https")
        && text_eq resolved.scheme (codes "http")
    then refused url (codes "HTTPS-to-HTTP downgrade is prohibited")
    else if not is_sensitive
    then granted url
    else if not (is_same_origin current resolved)
    then refused url (codes "Cross-origin redirect rejected for authenticated request")
    else if not (is_allowed_sensitive_url resolved).0
    then refused url (is_allowed_sensitive_url resolved).1
    else granted url

unfoldable pub validate_redirect : Text → Text → Bool → RedirectValidationResult
validate_redirect current_url location is_sensitive =
    let url = resolve_redirect_url current_url location in
    judge_redirect (parse_url current_url) (parse_url url) url is_sensitive

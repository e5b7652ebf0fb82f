-- ===== src/Accounts/Input.antt =====
-- `ParseManualInput` of src/core/accounts/TrackedAccounts.cpp: an account id, a primary id or a profile
-- link that a user typed. The messages for the user are left out; the errors are kept.
use omni_stats.Prelude.{
  ℕ, Bool, true, false, ◌&&◌, ◌||◌, not, List, [], ◌∷◌, Option, none, some, ltb, ◌==◌,
  if◌then◌else◌, is_empty, drop, take, length, keep_if,
}
use omni_stats.Prelude.Text.{
  Text, codes, text_eq, starts_with, split_at_text, contains_text, split_where, lowered, trim,
  up_to, is_char,
}
use omni_stats.Accounts.{
  Platform, epic, steam, play_station, xbox, switch, Identity, max_input_length, parse_platform,
  normalize_account_id, make_identity, is_valid_account_id, is_hex, is_digits,
}

pub data InputError : Type 0 where
  no_error empty_input too_long unsupported_platform platform_mismatch display_name unresolvable_url
        invalid_account_id :
      InputError

abbrev pub is_error : InputError → Bool
is_error no_error = false
is_error _ = true

pub record ParseResult : Type 0 where
  pub identity : Option Identity
  pub error : InputError

abbrev pub fail : InputError → ParseResult
fail error = record { identity = none; error = error }

abbrev pub success : Identity → ParseResult
success i = record { identity = some i; error = no_error }

abbrev pub platform_eq : Platform → Platform → Bool
platform_eq epic epic = true
platform_eq steam steam = true
platform_eq play_station play_station = true
platform_eq xbox xbox = true
platform_eq switch switch = true
platform_eq _ _ = false

-- Whether the id looks like a display name.
abbrev is_display_name : Platform → Text → Bool
is_display_name epic id = not (is_hex id)
is_display_name switch id = false
is_display_name _ id = not (is_digits id)

unfoldable pub parse_raw_id : Platform → Text → ParseResult
parse_raw_id platform raw_id =
    let id = normalize_account_id platform raw_id in
    if is_empty id
    then fail empty_input
    else if not (is_valid_account_id platform id)
    then fail (if is_display_name platform id then display_name else invalid_account_id)
    else success (make_identity platform id)

-- A character in front of the first part.
abbrev prepend : ℕ → List Text → List Text
prepend c [] = (c ∷ []) ∷ []
prepend c (part ∷ parts) = (c ∷ part) ∷ parts

abbrev pieces : Text → List Text
pieces [] = []
pieces (c ∷ s) = let rest = pieces s in if c == b'/' then [] ∷ rest else prepend c rest

abbrev is_part : Text → Bool
is_part part = not (is_empty part)

-- The parts between slashes that are not empty.
unfoldable pub split_path : Text → List Text
split_path path = keep_if is_part (pieces path)

abbrev pub ends_with : Text → Text → Bool
ends_with [] t = is_empty t
ends_with (c ∷ s) t = text_eq (c ∷ s) t || ends_with s t

-- The domain, or a host below it.
abbrev pub host_is : Text → Text → Bool
host_is host domain = text_eq host domain || ends_with host (b'.' ∷ domain)

unfoldable pub require_steam : Platform → Text → ParseResult
require_steam platform id =
    if not (platform_eq platform steam)
    then fail platform_mismatch
    else if not (is_valid_account_id steam id)
    then fail unresolvable_url
    else parse_raw_id steam id

unfoldable pub steam_link : Platform → List Text → ParseResult
steam_link platform (kind ∷ id ∷ rest) =
    if text_eq (lowered kind) (codes "profiles")
    then require_steam platform id
    else if text_eq (lowered kind) (codes "id") && not (platform_eq platform steam)
    then fail platform_mismatch
    else fail unresolvable_url
steam_link platform (kind ∷ []) = fail unresolvable_url
steam_link platform [] = fail unresolvable_url

-- The path from the part `profile` on, with at least two more parts.
unfoldable pub tracker_link : Platform → List Text → ParseResult
tracker_link platform [] = fail unresolvable_url
tracker_link platform (part ∷ []) = fail unresolvable_url
tracker_link platform (part ∷ a ∷ []) = fail unresolvable_url
tracker_link platform (part ∷ a ∷ b ∷ rest) =
    let later = tracker_link platform (a ∷ b ∷ rest) in
    if not (text_eq (lowered part) (codes "profile"))
    then later
    else if text_eq (lowered a) (codes "steam")
    then require_steam platform b
    else fail unresolvable_url

-- What follows the scheme, up to the query and the fragment.
abbrev link_rest : Text → Text
link_rest input =
    up_to (λ c. c == b'?' || c == b'#')
      (elim (split_at_text (codes "://") input) [ none ↦ input | some (a, b) ↦ drop 3 b ])

abbrev path_after_host : Text → Text
path_after_host rest = elim (split_where (is_char b'/') rest) [ none ↦ [] | some (a, b) ↦ drop 1 b ]

unfoldable pub parse_link : Platform → Text → ParseResult
parse_link platform input =
    let host = lowered (up_to (is_char b'/') (link_rest input)) in
    let path = split_path (path_after_host (link_rest input)) in
    if host_is host (codes "steamcommunity.com")
    then steam_link platform path
    else if host_is host (codes "tracker.network") || host_is host (codes "tracker.gg")
    then tracker_link platform path
    else fail unresolvable_url

unfoldable pub looks_like_url : Text → Bool
looks_like_url input =
    let lower = lowered (take 64 input) in
    contains_text (codes "://") lower
    || starts_with lower (codes "www.")
    || contains_text (codes "steamcommunity.com") lower
    || contains_text (codes "tracker.network") lower
    || contains_text (codes "tracker.gg") lower

abbrev pub embedded : Platform → Option Platform → Text → ParseResult
embedded platform none rest = fail unsupported_platform
embedded platform (some p) rest =
    if platform_eq p platform
    then parse_raw_id platform (up_to (is_char b'|') rest)
    else fail platform_mismatch

-- An input that is no link.
abbrev pub parse_id : Platform → Text → Option (Text × Text) → ParseResult
parse_id platform input none = parse_raw_id platform input
parse_id platform input (some (a, b)) = embedded platform (parse_platform a) (drop 1 b)

unfoldable pub parse_manual_input : Platform → Text → ParseResult
parse_manual_input platform text =
    let input = trim text in
    if ltb max_input_length (length text)
    then fail too_long
    else if is_empty input
    then fail empty_input
    else if looks_like_url input
    then parse_link platform input
    else parse_id platform input (split_where (is_char b'|') input)

-- ===== src/Accounts.antt =====
-- src/core/accounts/TrackedAccounts.{hpp,cpp}: the identity of a player's account, from its platform and
-- the platform's id to the text that is kept and back. Text is bytes.
pub mod Canonical
pub mod Input
pub mod Answers
mod Examples
use omni_stats.Prelude.{
  ℕ, Bool, true, false, ◌&&◌, ◌||◌, not, List, [], ◌∷◌, ◌++◌, Option, none, some, ltb, leb, ◌==◌,
  if◌then◌else◌, is_empty, any_of, all_of, length, drop,
}
use omni_stats.Prelude.Text.{
  Text, codes, text_eq, is_digit, is_xdigit, starts_with, split_where, lowered, trim, up_to,
  is_char,
}

pub data Platform : Type 0 where
  epic steam play_station xbox switch : Platform

pub record Identity : Type 0 where
  pub platform : Platform
  pub account_id : Text
  pub primary_id : Text

-- `kMaxInputLength`.
abbrev pub max_input_length : ℕ
max_input_length = 256

abbrev pub platform_token : Platform → Text
platform_token epic = codes "Epic"
platform_token steam = codes "Steam"
platform_token play_station = codes "PS4"
platform_token xbox = codes "XboxOne"
platform_token switch = codes "Switch"

abbrev is_one_of : List Text → Text → Bool
is_one_of names key = any_of (text_eq key) names

unfoldable pub parse_platform : Text → Option Platform
parse_platform text =
    let key = lowered (trim text) in
    if is_one_of (codes "epic" ∷ codes "epicgames" ∷ []) key
    then some epic
    else if is_one_of (codes "steam" ∷ []) key
    then some steam
    else if is_one_of (codes "ps4" ∷ codes "ps5" ∷ codes "psn" ∷ codes "playstation" ∷ []) key
    then some play_station
    else if is_one_of (codes "xbox" ∷ codes "xboxone" ∷ codes "xbl" ∷ []) key
    then some xbox
    else if is_one_of (codes "switch" ∷ codes "nintendo" ∷ []) key
    then some switch
    else none

-- `AllOf`: never true of an empty text.
abbrev pub consists_of : (ℕ → Bool) → Text → Bool
consists_of p text = not (is_empty text) && all_of p text

abbrev pub is_hex : Text → Bool
is_hex = consists_of is_xdigit

abbrev pub is_digits : Text → Bool
is_digits = consists_of is_digit

abbrev pub ignores_case : Platform → Bool
ignores_case epic = true
ignores_case switch = true
ignores_case _ = false

abbrev pub normalize_account_id : Platform → Text → Text
normalize_account_id platform account_id =
    if ignores_case platform then lowered (trim account_id) else trim account_id

abbrev pub make_identity : Platform → Text → Identity
make_identity platform account_id = record {
  platform = platform;
  account_id = account_id;
  primary_id = platform_token platform ++ b'|' ∷ account_id;
}

abbrev is_zero : ℕ → Bool
is_zero c = c == b'0'

unfoldable pub is_valid_account_id : Platform → Text → Bool
is_valid_account_id epic id = length id == 32 && is_hex id
is_valid_account_id steam id = length id == 17 && is_digits id && starts_with id (codes "7656119")
is_valid_account_id play_station id = leb (length id) 20 && is_digits id && not (all_of is_zero id)
is_valid_account_id xbox id = leb (length id) 20 && is_digits id && not (all_of is_zero id)
is_valid_account_id switch id = leb (length id) 32 && is_hex id

abbrev pub checked_identity : Platform → Text → Option Identity
checked_identity platform account_id =
    if is_valid_account_id platform account_id
    then some (make_identity platform account_id)
    else none

-- From the platform on, with what follows the first bar.
abbrev pub with_platform : Option Platform → Text → Option Identity
with_platform none rest = none
with_platform (some p) rest =
    checked_identity p (normalize_account_id p (up_to (is_char b'|') rest))

abbrev pub split_identity : Option (Text × Text) → Option Identity
split_identity none = none
split_identity (some (a, b)) = with_platform (parse_platform a) (drop 1 b)

unfoldable pub from_primary_id : Text → Option Identity
from_primary_id primary_id =
    let text = trim primary_id in
    if is_empty text || ltb max_input_length (length text)
    then none
    else split_identity (split_where (is_char b'|') text)

abbrev pub primary_id_of : Option Identity → Text
primary_id_of none = []
primary_id_of (some identity) = identity.primary_id

unfoldable pub canonical_primary_id : Text → Text
canonical_primary_id primary_id = primary_id_of (from_primary_id primary_id)

-- ===== src/Accounts/Examples.antt =====
-- The lemmas on identities at concrete inputs.
use omni_stats.Prelude.{◌≡◌, refl, some}
use omni_stats.Prelude.Text.{Text, codes, lowered, to_lower}
use omni_stats.Accounts.{
  Identity, epic, steam, make_identity, from_primary_id, canonical_primary_id, parse_platform,
  is_valid_account_id,
}
use omni_stats.Accounts.Answers.{Answers, parse_manual_input-Answers}
use omni_stats.Accounts.Input.{
  parse_manual_input, parse_link, looks_like_url, steam_link, require_steam, parse_raw_id,
  split_path, success,
}
use omni_stats.Accounts.Canonical.{IsStable, from_primary_id-IsStable, canonical_primary_id_idem}

abbrev typed : Text
typed = codes " EpicGames|0123456789ABCDEF0123456789abcdef|0 "

abbrev kept : Identity
kept = make_identity epic (codes "0123456789abcdef0123456789abcdef")

typed_read : from_primary_id typed ≡ some kept
unfolding from_primary_id parse_platform is_valid_account_id lowered to_lower
typed_read = refl

from_primary_id-IsStable_example : IsStable kept
from_primary_id-IsStable_example = from_primary_id-IsStable typed kept typed_read

canonical_primary_id_idem_example :
    canonical_primary_id (canonical_primary_id typed) ≡ canonical_primary_id typed
canonical_primary_id_idem_example = canonical_primary_id_idem typed

abbrev link : Text
link = codes "https://steamcommunity.com/profiles/76561198000000000/?l=en"

link_read :
    parse_manual_input steam link ≡ success (make_identity steam (codes "76561198000000000"))
unfolding parse_manual_input parse_link looks_like_url steam_link require_steam parse_raw_id
    split_path is_valid_account_id lowered to_lower
link_read = refl

parse_manual_input-Answers_example : Answers steam (parse_manual_input steam link)
parse_manual_input-Answers_example = parse_manual_input-Answers steam link

-- ===== src/Playlists/Examples.antt =====
-- The lemmas on playlists at concrete inputs.
use omni_stats.Prelude.{◌≡◌, refl, ◌⊎◌, not, ◌||◌, none, some, str_eq, is_some}
use omni_stats.Prelude.Int.{pos}
use omni_stats.Playlists.{
  Info, PlaylistClass, MmrCategory, playlists, find, class_eq, is_tracked_competitive_mode,
  string_to_mmr_category, mmr_category_to_string,
}
use omni_stats.Playlists.Facts.{find_lem, is_competitive}
use omni_stats.Playlists.Modes.{string_to_mmr_category_lem}

-- Ranked doubles.
abbrev doubles : Info
doubles = record {
  id = pos 11;
  canonical_mode = "2v2";
  storage_mode = "2v2";
  mmr_key = "2v2";
  display_name = "Doubles";
  playlist_class = PlaylistClass.ranked;
  mmr_category = MmrCategory.two_v_two;
  tracker_key = "2v2";
  non_recordable_reason = none;
}

find-doubles : find (pos 11) ≡ some doubles
unfolding find playlists
find-doubles = refl

find_lem_example :
    (is_some doubles.non_recordable_reason
      ≡ class_eq doubles.playlist_class PlaylistClass.non_recordable)
    × (is_tracked_competitive_mode doubles.canonical_mode ≡ is_competitive doubles.playlist_class)
    × (string_to_mmr_category doubles.mmr_key ≡ doubles.mmr_category)
    × (str_eq doubles.mmr_key ""
        ≡ not (
            is_competitive doubles.playlist_class
            || class_eq doubles.playlist_class PlaylistClass.casual))
find_lem_example = find_lem (pos 11) doubles find-doubles

string_to_mmr_category_example :
    (string_to_mmr_category (mmr_category_to_string MmrCategory.hoops) ≡ MmrCategory.hoops)
    × ((mmr_category_to_string (string_to_mmr_category "3v3") ≡ "3v3")
        ⊎ (string_to_mmr_category "3v3" ≡ MmrCategory.best))
string_to_mmr_category_example = string_to_mmr_category_lem MmrCategory.hoops "3v3"

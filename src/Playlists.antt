-- ===== src/Playlists.antt =====
-- src/core/game/PlaylistMetadata.cpp, the category names of src/core/state/SessionState.cpp and
-- src/core/game/GamemodeUtils.cpp. Modes and keys are `String`s; an arena's name is bytes.
mod Table
pub mod Facts
pub mod Modes
mod Examples
pub use Table.{MmrCategory, PlaylistClass, Info}
unfoldable pub use Table.{playlists}
use omni_stats.Prelude.{
  ℕ, zero, suc, ◌+◌, String, Bool, true, false, ◌&&◌, ◌||◌, not, List, [], ◌∷◌, ◌++◌, Option, none,
  some, ltb, leb, ◌==◌, str_eq, if◌then◌else◌, is_empty,
}
use omni_stats.Prelude.Int.{ℤ, pos, negsuc, eqb_ℤ, leb_ℤ}
use omni_stats.Prelude.Text.{Text, codes, text_eq, contains_text, is_alnum, to_lower}

abbrev pub class_eq : PlaylistClass → PlaylistClass → Bool
class_eq PlaylistClass.casual PlaylistClass.casual = true
class_eq PlaylistClass.ranked PlaylistClass.ranked = true
class_eq PlaylistClass.tournament PlaylistClass.tournament = true
class_eq PlaylistClass.non_recordable PlaylistClass.non_recordable = true
class_eq PlaylistClass.other PlaylistClass.other = true
class_eq _ _ = false

abbrev pub has_authoritative_id : ℤ → Bool
has_authoritative_id playlist_id = not (eqb_ℤ playlist_id (negsuc 0))

-- The loop of `Find`.
abbrev pub find_in : ℤ → List Info → Option Info
find_in playlist_id [] = none
find_in playlist_id (p ∷ ps) = if eqb_ℤ p.id playlist_id then some p else find_in playlist_id ps

unfoldable pub find : ℤ → Option Info
unfolding playlists
find playlist_id = find_in playlist_id playlists

abbrev on_info {ℓ} : {A : Type ℓ} → (Info → A) → A → Option Info → A
on_info f d none = d
on_info f d (some info) = f info

abbrev pub is_known : ℤ → Bool
is_known playlist_id = on_info (λ info. true) false (find playlist_id)

abbrev pub is_casual : ℤ → Bool
is_casual playlist_id =
    on_info (λ info. class_eq info.playlist_class PlaylistClass.casual) false (find playlist_id)

abbrev pub is_non_recordable : ℤ → Bool
is_non_recordable playlist_id =
    on_info (λ info. class_eq info.playlist_class PlaylistClass.non_recordable) false
      (find playlist_id)

abbrev pub is_ranked : ℤ → Bool
is_ranked playlist_id =
    on_info (λ info. class_eq info.playlist_class PlaylistClass.ranked) false (find playlist_id)

abbrev pub non_recordable_reason : ℤ → Option String
non_recordable_reason playlist_id =
    on_info (λ info. info.non_recordable_reason) none (find playlist_id)

abbrev pub canonical_mode : ℤ → String
canonical_mode playlist_id = on_info (λ info. info.canonical_mode) "" (find playlist_id)

abbrev pub storage_mode : ℤ → String
storage_mode playlist_id = on_info (λ info. info.storage_mode) "" (find playlist_id)

abbrev pub mmr_key : ℤ → String
mmr_key playlist_id = on_info (λ info. info.mmr_key) "" (find playlist_id)

abbrev pub display_name : ℤ → String
display_name playlist_id = on_info (λ info. info.display_name) "Unknown" (find playlist_id)

abbrev pub category : ℤ → MmrCategory
category playlist_id = on_info (λ info. info.mmr_category) MmrCategory.best (find playlist_id)

abbrev pub tracker_key : ℤ → String
tracker_key playlist_id = on_info (λ info. info.tracker_key) "" (find playlist_id)

unfoldable pub mmr_category_to_string : MmrCategory → String
mmr_category_to_string MmrCategory.one_v_one = "1v1"
mmr_category_to_string MmrCategory.two_v_two = "2v2"
mmr_category_to_string MmrCategory.three_v_three = "3v3"
mmr_category_to_string MmrCategory.casual = "casual"
mmr_category_to_string MmrCategory.tourny = "t"
mmr_category_to_string MmrCategory.hoops = "hoops"
mmr_category_to_string MmrCategory.rumble = "rumble"
mmr_category_to_string MmrCategory.dropshot = "dropshot"
mmr_category_to_string MmrCategory.snow_day = "snowday"
mmr_category_to_string MmrCategory.heatseeker = "heatseeker"
mmr_category_to_string MmrCategory.best = "best"

unfoldable pub string_to_mmr_category : String → MmrCategory
string_to_mmr_category str =
    if str_eq str "1v1"
    then MmrCategory.one_v_one
    else if str_eq str "2v2"
    then MmrCategory.two_v_two
    else if str_eq str "3v3"
    then MmrCategory.three_v_three
    else if str_eq str "casual"
    then MmrCategory.casual
    else if str_eq str "t"
    then MmrCategory.tourny
    else if str_eq str "hoops"
    then MmrCategory.hoops
    else if str_eq str "rumble"
    then MmrCategory.rumble
    else if str_eq str "dropshot"
    then MmrCategory.dropshot
    else if str_eq str "snowday"
    then MmrCategory.snow_day
    else if str_eq str "heatseeker"
    then MmrCategory.heatseeker
    else MmrCategory.best

abbrev pub is_extra_mmr_category : MmrCategory → Bool
is_extra_mmr_category MmrCategory.hoops = true
is_extra_mmr_category MmrCategory.rumble = true
is_extra_mmr_category MmrCategory.dropshot = true
is_extra_mmr_category MmrCategory.snow_day = true
is_extra_mmr_category MmrCategory.heatseeker = true
is_extra_mmr_category _ = false

-- GamemodeUtils.cpp.
unfoldable pub normalize_arena_key : Text → Text
unfolding to_lower
normalize_arena_key [] = []
normalize_arena_key (c ∷ s) =
    let rest = normalize_arena_key s in if is_alnum c then to_lower c ∷ rest else rest

unfoldable pub infer_from_player_count : ℤ → String
infer_from_player_count player_count =
    if leb_ℤ player_count (pos 0)
    then "Unknown"
    else if leb_ℤ player_count (pos 2)
    then "1v1"
    else if leb_ℤ player_count (pos 4)
    then "2v2"
    else if leb_ℤ player_count (pos 6)
    then "3v3"
    else "Unknown"

-- `arenaModes`.
abbrev arena_modes : List (Text × String)
arena_modes =
    (codes "hoopsdunkhouse", "hoops")
    ∷ (codes "dunkhouse", "hoops")
    ∷ (codes "hoopstheblock", "hoops")
    ∷ (codes "theblock", "hoops")
    ∷ (codes "shattershot", "dropshot")
    ∷ (codes "dropshot", "dropshot")
    ∷ (codes "core707", "dropshot")
    ∷ (codes "championsfieldsnowday", "snowday")
    ∷ (codes "snowday", "snowday")
    ∷ []

find_arena : Text → List (Text × String) → Option String
find_arena key [] = none
find_arena key ((k, mode) ∷ rest) = if text_eq k key then some mode else find_arena key rest

unfoldable pub infer_from_arena_name : Text → String
unfolding normalize_arena_key find_arena
infer_from_arena_name arena_name =
    let key = normalize_arena_key arena_name in
    let by_part : String =
      if contains_text (codes "hoops") key || contains_text (codes "dunkhouse") key
      then "hoops"
      else if contains_text (codes "dropshot") key
          || contains_text (codes "shattershot") key
          || contains_text (codes "core707") key
      then "dropshot"
      else if contains_text (codes "snow") key || contains_text (codes "hockey") key
      then "snowday"
      else "Unknown" in
    if is_empty key
    then "Unknown"
    else elim (find_arena key arena_modes) [ some mode ↦ mode | none ↦ by_part ]

unfoldable pub infer_from_snapshot : ℤ → ℕ → MmrCategory → Text → String
infer_from_snapshot legacy_max_players_seen roster_size roster_cat arena_name =
    let arena_mode = infer_from_arena_name arena_name in
    let player_count =
      if leb_ℤ legacy_max_players_seen (pos 0) then pos roster_size else legacy_max_players_seen in
    let by_category : String = elim roster_cat [
      | MmrCategory.casual ↦ "casual"
      | MmrCategory.tourny ↦ "t"
      | MmrCategory.rumble ↦ "rumble"
      | MmrCategory.heatseeker ↦ "heatseeker"
      | _ ↦ infer_from_player_count player_count
    ] in
    if not (str_eq arena_mode "Unknown") then arena_mode else by_category

unfoldable pub is_tracked_competitive_mode : String → Bool
is_tracked_competitive_mode mode =
    str_eq mode "1v1"
    || str_eq mode "2v2"
    || str_eq mode "3v3"
    || str_eq mode "t"
    || str_eq mode "hoops"
    || str_eq mode "rumble"
    || str_eq mode "dropshot"
    || str_eq mode "snowday"
    || str_eq mode "heatseeker"

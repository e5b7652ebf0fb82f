-- ===== src/Playlists/Table.antt =====
-- src/core/game/PlaylistMetadata.{hpp,cpp}: the types and the table `kPlaylists`; `MmrCategory` is of
-- src/core/state/SessionTypes.hpp.
use omni_stats.Prelude.{String, List, [], ◌∷◌, Option, none, some}
use omni_stats.Prelude.Int.{ℤ, pos, negsuc}

pub data MmrCategory : Type 0 where
  best one_v_one two_v_two three_v_three casual tourny : MmrCategory
  hoops rumble dropshot snow_day heatseeker : MmrCategory

pub data PlaylistClass : Type 0 where
  casual ranked tournament non_recordable other : PlaylistClass

pub record Info : Type 0 where
  pub id : ℤ
  pub canonical_mode : String
  pub storage_mode : String
  pub mmr_key : String
  pub display_name : String
  pub playlist_class : PlaylistClass
  pub mmr_category : MmrCategory
  pub tracker_key : String
  pub non_recordable_reason : Option String

-- A row of the table; a null reason is `none`.
abbrev entry :
    ℤ
    → String
    → String
    → String
    → String
    → PlaylistClass
    → MmrCategory
    → String
    → Option String
    → Info
entry id canonical storage key display class category tracker reason = record {
  id = id;
  canonical_mode = canonical;
  storage_mode = storage;
  mmr_key = key;
  display_name = display;
  playlist_class = class;
  mmr_category = category;
  tracker_key = tracker;
  non_recordable_reason = reason;
}

unfoldable pub playlists : List Info
playlists =
    entry (negsuc 1) "intermission" "intermission" "" "Intermission" non_recordable best ""
      (some "intermission_playlist")
    ∷ entry (pos 0) "casual" "casual" "casual" "Casual" PlaylistClass.casual MmrCategory.casual
        "casual" none
    ∷ entry (pos 1) "casual" "casual" "casual" "Duel" PlaylistClass.casual MmrCategory.casual ""
        none
    ∷ entry (pos 2) "casual" "casual" "casual" "Doubles" PlaylistClass.casual MmrCategory.casual ""
        none
    ∷ entry (pos 3) "casual" "casual" "casual" "Standard" PlaylistClass.casual MmrCategory.casual ""
        none
    ∷ entry (pos 4) "casual" "casual" "casual" "Chaos" PlaylistClass.casual MmrCategory.casual ""
        none
    ∷ entry (pos 6) "private" "private" "" "Private Match" non_recordable best ""
        (some "private_match_playlist")
    ∷ entry (pos 7) "season" "season" "" "Season" non_recordable best "" (some "season_playlist")
    ∷ entry (pos 8) "exhibition" "exhibition" "" "Exhibition" non_recordable best ""
        (some "exhibition_playlist")
    ∷ entry (pos 9) "training" "training" "" "Training" non_recordable best ""
        (some "training_playlist")
    ∷ entry (pos 10) "1v1" "1v1" "1v1" "Duel" ranked one_v_one "1v1" none
    ∷ entry (pos 11) "2v2" "2v2" "2v2" "Doubles" ranked two_v_two "2v2" none
    ∷ entry (pos 12) "3v3" "3v3" "3v3" "Standard" ranked three_v_three "" none
    ∷ entry (pos 13) "3v3" "3v3" "3v3" "Standard" ranked three_v_three "3v3" none
    ∷ entry (pos 15) "casual" "casual" "casual" "Snow Day" PlaylistClass.casual MmrCategory.casual
        "" none
    ∷ entry (pos 16) "casual" "casual" "casual" "Rocket Labs" PlaylistClass.casual
        MmrCategory.casual "" none
    ∷ entry (pos 17) "casual" "casual" "casual" "Hoops" PlaylistClass.casual MmrCategory.casual ""
        none
    ∷ entry (pos 18) "casual" "casual" "casual" "Rumble" PlaylistClass.casual MmrCategory.casual ""
        none
    ∷ entry (pos 19) "workshop" "workshop" "" "Workshop" non_recordable best ""
        (some "workshop_playlist")
    ∷ entry (pos 20) "training" "training" "" "Custom Training Editor" non_recordable best ""
        (some "custom_training_editor_playlist")
    ∷ entry (pos 21) "training" "training" "" "Custom Training" non_recordable best ""
        (some "custom_training_playlist")
    ∷ entry (pos 22) "t" "t" "t" "Tournament Match (Custom)" tournament tourny "" none
    ∷ entry (pos 23) "casual" "casual" "casual" "Dropshot" PlaylistClass.casual MmrCategory.casual
        "" none
    ∷ entry (pos 24) "local" "local" "" "Local Match" non_recordable best ""
        (some "local_match_playlist")
    ∷ entry (pos 26) "external" "external" "" "External Match" other best "" none
    ∷ entry (pos 27) "hoops" "hoops" "hoops" "Hoops" ranked hoops "hoops" none
    ∷ entry (pos 28) "rumble" "rumble" "rumble" "Rumble" ranked rumble "rumble" none
    ∷ entry (pos 29) "dropshot" "dropshot" "dropshot" "Dropshot" ranked dropshot "dropshot" none
    ∷ entry (pos 30) "snowday" "snowday" "snowday" "Snow Day" ranked snow_day "snowday" none
    ∷ entry (pos 31) "casual" "casual" "casual" "Ghost Hunt" PlaylistClass.casual MmrCategory.casual
        "" none
    ∷ entry (pos 32) "casual" "casual" "casual" "Beach Ball" PlaylistClass.casual MmrCategory.casual
        "" none
    ∷ entry (pos 33) "casual" "casual" "casual" "Spike Rush" PlaylistClass.casual MmrCategory.casual
        "" none
    ∷ entry (pos 34) "t" "t" "t" "Tournament Match" tournament tourny "t" none
    ∷ entry (pos 35) "casual" "casual" "casual" "Rocket Labs" PlaylistClass.casual
        MmrCategory.casual "" none
    ∷ entry (pos 37) "casual" "casual" "casual" "Dropshot Rumble" PlaylistClass.casual
        MmrCategory.casual "" none
    ∷ entry (pos 38) "casual" "casual" "casual" "Heatseeker" PlaylistClass.casual MmrCategory.casual
        "" none
    ∷ entry (pos 41) "casual" "casual" "casual" "Boomer Ball" PlaylistClass.casual
        MmrCategory.casual "" none
    ∷ entry (pos 43) "heatseeker" "heatseeker" "heatseeker" "Heatseeker" ranked heatseeker
        "heatseeker" none
    ∷ entry (pos 44) "casual" "casual" "casual" "Winter Breakaway" PlaylistClass.casual
        MmrCategory.casual "" none
    ∷ entry (pos 46) "casual" "casual" "casual" "Gridiron" PlaylistClass.casual MmrCategory.casual
        "" none
    ∷ entry (pos 47) "casual" "casual" "casual" "Super Cube" PlaylistClass.casual MmrCategory.casual
        "" none
    ∷ entry (pos 48) "casual" "casual" "casual" "Tactical Rumble" PlaylistClass.casual
        MmrCategory.casual "" none
    ∷ entry (pos 49) "casual" "casual" "casual" "Spring Loaded" PlaylistClass.casual
        MmrCategory.casual "" none
    ∷ entry (pos 50) "casual" "casual" "casual" "Speed Demon" PlaylistClass.casual
        MmrCategory.casual "" none
    ∷ entry (pos 52) "casual" "casual" "casual" "Gotham City Rumble" PlaylistClass.casual
        MmrCategory.casual "" none
    ∷ entry (pos 54) "casual" "casual" "casual" "Knockout" PlaylistClass.casual MmrCategory.casual
        "" none
    ∷ entry (pos 55) "casual" "casual" "casual" "Confidential Thirdwheel Test" PlaylistClass.casual
        MmrCategory.casual "" none
    ∷ entry (pos 61) "casual" "casual" "casual" "Quads" PlaylistClass.casual MmrCategory.casual ""
        none
    ∷ entry (pos 62) "casual" "casual" "casual" "Magnus Futball" PlaylistClass.casual
        MmrCategory.casual "" none
    ∷ entry (pos 63) "heatseeker" "heatseeker" "heatseeker" "Heatseeker" ranked heatseeker
        "heatseeker" none
    ∷ entry (pos 64) "casual" "casual" "casual" "God Ball Spooky" PlaylistClass.casual
        MmrCategory.casual "" none
    ∷ entry (pos 65) "casual" "casual" "casual" "God Ball Haunted" PlaylistClass.casual
        MmrCategory.casual "" none
    ∷ entry (pos 66) "casual" "casual" "casual" "God Ball Ricochet" PlaylistClass.casual
        MmrCategory.casual "" none
    ∷ entry (pos 67) "casual" "casual" "casual" "Cubic Spooky" PlaylistClass.casual
        MmrCategory.casual "" none
    ∷ entry (pos 68) "casual" "casual" "casual" "G-Force Frenzy" PlaylistClass.casual
        MmrCategory.casual "" none
    ∷ entry (pos 70) "casual" "casual" "casual" "RumShot Doubles" PlaylistClass.casual
        MmrCategory.casual "" none
    ∷ entry (pos 72) "casual" "casual" "casual" "Territory" PlaylistClass.casual MmrCategory.casual
        "" none
    ∷ entry (pos 73) "training" "training" "" "Online Freeplay" non_recordable best ""
        (some "online_freeplay_playlist")
    ∷ entry (pos 74) "casual" "casual" "casual" "Territory Doubles" PlaylistClass.casual
        MmrCategory.casual "" none
    ∷ entry (pos 75) "casual" "casual" "casual" "Godball Territory" PlaylistClass.casual
        MmrCategory.casual "" none
    ∷ entry (pos 76) "casual" "casual" "casual" "Godball Territory Doubles" PlaylistClass.casual
        MmrCategory.casual "" none
    ∷ entry (pos 77) "casual" "casual" "casual" "Non-Standard Soccar" PlaylistClass.casual
        MmrCategory.casual "" none
    ∷ entry (pos 79) "casual" "casual" "casual" "Snowday Territory" PlaylistClass.casual
        MmrCategory.casual "" none
    ∷ entry (pos 80) "casual" "casual" "casual" "Run It Back" PlaylistClass.casual
        MmrCategory.casual "" none
    ∷ entry (pos 81) "casual" "casual" "casual" "Car Wars" PlaylistClass.casual MmrCategory.casual
        "" none
    ∷ entry (pos 82) "casual" "casual" "casual" "Pizza Party" PlaylistClass.casual
        MmrCategory.casual "" none
    ∷ entry (pos 83) "casual" "casual" "casual" "Push The Puck" PlaylistClass.casual
        MmrCategory.casual "" none
    ∷ entry (pos 84) "casual" "casual" "casual" "Possession" PlaylistClass.casual MmrCategory.casual
        "" none
    ∷ entry (pos 86) "casual" "casual" "casual" "FC Showdown" PlaylistClass.casual
        MmrCategory.casual "" none
    ∷ entry (pos 87) "casual" "casual" "casual" "Sacrifice" PlaylistClass.casual MmrCategory.casual
        "" none
    ∷ entry (pos 88) "casual" "casual" "casual" "Jump Jam" PlaylistClass.casual MmrCategory.casual
        "" none
    ∷ []

-- ===== src/Matches/Examples.antt =====
-- The lemmas on how a match is judged, at a concrete match.
use omni_stats.Prelude.{some, ◌≡◌, refl, ◌⊎◌, true, false, not, ◌&&◌, [], ◌∷◌}
use omni_stats.Prelude.Int.{negsuc, pos}
use omni_stats.Prelude.Text.{codes}
use omni_stats.Prelude.Maps.{lookup}
use omni_stats.Playlists.{is_tracked_competitive_mode, MmrCategory, find, playlists}
use omni_stats.Matches.{
  MatchState, CapturedMatch, void_decision, capture_match, classify_match_end,
  is_valid_early_competitive_exit, PlayerData, blank_player, new_match_state,
  infer_mode_from_match_state, is_tracked_ranked_early_exit_mode,
}
use omni_stats.Matches.Refresh.{
  PostMatchMmrRefresh, build_post_match_mmr_refresh, build_post_match_mmr_refresh_lem, IsRated,
  IsPlausible, is_refused, previous_of,
}
use omni_stats.Matches.Validation.{
  counted, was_played, lobby_passes, is_recordable, classify_match_end_lem,
  is_valid_early_competitive_exit_lem,
}

abbrev me : PlayerData
me = record blank_player {
  name = "Me";
  team = pos 1;
  mmr = pos 900;
  playlists = ("2v2", pos 940) ∷ [];
}

-- A game of ranked doubles in its second minute.
abbrev doubles : MatchState
doubles = record new_match_state {
  in_match = true;
  my_team = pos 1;
  my_primary_id = "Steam|1|0";
  match_guid = "GUID";
  arena_name = codes "Stadium";
  playlist_id = pos 11;
  active_match_generation = 4;
  session_generation = 1;
  score = (pos 2, pos 1);
  round_ever_started = true;
  local_player_was_active = true;
  local_player_presence_observed = true;
  local_player_present_in_latest_update = true;
  roster = ("Steam|1|0", me) ∷ [];
  auto_switched_playlist_category = MmrCategory.two_v_two;
}

abbrev captured : CapturedMatch
captured = capture_match (pos 1700000000000) doubles

classify_match_end_example :
    let decision = classify_match_end captured (pos 0) in
    (decision.should_count ≡ (
      not captured.non_live_replay
      && is_recordable captured
      && (was_played captured (pos 0) && lobby_passes captured)))
    × ((decision ≡ counted captured (pos 0)) ⊎ (decision ≡ void_decision decision.void_reason))
classify_match_end_example = classify_match_end_lem captured (pos 0)

may_leave : (is_valid_early_competitive_exit doubles "" "").0 ≡ true
unfolding is_valid_early_competitive_exit infer_mode_from_match_state
    is_tracked_ranked_early_exit_mode find playlists
may_leave = refl

is_valid_early_competitive_exit_example :
    let exit = is_valid_early_competitive_exit doubles "" "" in
    (exit.1 ≡ captured.mode) × (classify_match_end captured (pos 0) ≡ counted captured (pos 0))
is_valid_early_competitive_exit_example =
    is_valid_early_competitive_exit_lem (pos 1700000000000) doubles "" "" (pos 0) may_leave refl

abbrev asked : PostMatchMmrRefresh
asked = record {
  primary_id = "Steam|1|0";
  name = "Me";
  match_guid = "GUID";
  playlist = "2v2";
  previous_mmr = pos 940;
  previous_matches = negsuc 0;
  previous_mmr_is_playlist_specific = true;
  won = true;
  provisional_immediately = false;
}

asks : build_post_match_mmr_refresh captured true ≡ some asked
unfolding build_post_match_mmr_refresh is_refused previous_of capture_match
    infer_mode_from_match_state find playlists is_tracked_competitive_mode
asks = refl

build_post_match_mmr_refresh_example :
    IsRated captured asked.playlist
    × (asked.match_guid ≡ captured.match_guid)
    × (asked.won ≡ true)
    × (asked.primary_id ≡ captured.my_primary_id)
    × ((player : PlayerData) × (lookup asked.primary_id captured.roster ≡ some player)
        × (asked.name ≡ player.name))
    × IsPlausible asked.previous_mmr_is_playlist_specific asked.previous_mmr
build_post_match_mmr_refresh_example = build_post_match_mmr_refresh_lem captured true asked asks

-- ===== src/Reducer/Effects.antt =====
-- What the handlers ask for: `BuildDiscordSnapshot` of src/core/reducer/TelemetryReducer.cpp,
-- `PublishUiTimestamps` and `FormatPendingMatchHistoryMode` of TelemetryReducerDetail.cpp, and
-- `BuildMatchSaveSnapshot` of TelemetryReducerFinalize.cpp.
use omni_stats.Prelude.{
  String, Bool, true, false, ◌||◌, [], Option, none, some, str_eq, if◌then◌else◌,
}
use omni_stats.Prelude.Int.{ℤ, pos, ◌+ℤ◌, ltb_ℤ}
use omni_stats.Prelude.Text.{codes, starts_with}
use omni_stats.Playlists
use omni_stats.Matches.{MatchState, CapturedMatch, MatchEndDecision}
use omni_stats.Reducer.Types.{
  ReducerContext, DiscordPresenceSnapshot, UiStateUpdate, no_update, MatchSaveSnapshot, SideEffects,
}

-- `ctx.nowMs > 0 ? ctx.nowMs : SteadyNowMs()`.
unfoldable pub event_now_ms : ReducerContext → ℤ
event_now_ms ctx = if ltb_ℤ (pos 0) ctx.now_ms then ctx.now_ms else ctx.steady_now_ms

unfoldable pub build_discord_snapshot : MatchState → DiscordPresenceSnapshot
build_discord_snapshot state = record {
  show_presence = true;
  in_match = state.in_match;
  match_guid = state.match_guid;
  arena_name = state.arena_name;
  score = state.score;
  my_team = state.my_team;
  session_wins = state.session_totals.wins;
  session_losses = state.session_totals.losses;
}

-- `effects.pushDiscord = true; effects.discordSnapshot = BuildDiscordSnapshot(state);`
unfoldable pub push_discord : MatchState → SideEffects → SideEffects
push_discord state effects = record effects { discord = some (build_discord_snapshot state) }

abbrev pub update_or_new : Option UiStateUpdate → UiStateUpdate
update_or_new none = no_update
update_or_new (some ui) = ui

abbrev pub published : MatchState → UiStateUpdate → UiStateUpdate
published state ui = record ui {
  reset_timestamps = false;
  match_reset = ui.match_reset || state.hide_overlay_requested;
  last_match_start_ms = some state.last_match_start_ms;
  first_countdown_of_match_ms = some state.first_countdown_of_match_ms;
  last_countdown_ms = some state.last_countdown_ms;
  last_goal_ms = some state.last_goal_ms;
  last_match_end_ms = some state.last_match_end_ms;
  last_podium_ms = some state.last_podium_ms;
  in_goal_replay = some state.in_goal_replay;
  match_summary_start_ms = some state.match_summary_start_ms;
}

unfoldable pub publish_ui_timestamps : MatchState × SideEffects → MatchState × SideEffects
publish_ui_timestamps (state, effects) = (
  record state { hide_overlay_requested = false },
  record effects { ui_update = some (published state (update_or_new effects.ui_update)) },
)

unfoldable pub format_pending_match_history_mode : String → String
format_pending_match_history_mode mode =
    if str_eq mode "1v1"
    then "Duel"
    else if str_eq mode "2v2"
    then "Doubles"
    else if str_eq mode "3v3"
    then "Standard"
    else if str_eq mode "hoops"
    then "Hoops"
    else if str_eq mode "rumble"
    then "Rumble"
    else if str_eq mode "dropshot"
    then "Dropshot"
    else if str_eq mode "snowday"
    then "Snow Day"
    else if str_eq mode "heatseeker"
    then "Heatseeker"
    else if str_eq mode ""
    then "Unknown"
    else mode

-- `primaryId.rfind("Unknown|", 0) == 0`.
abbrev pub is_unknown_player : String → Bool
is_unknown_player primary_id = starts_with (codes primary_id) (codes "Unknown|")

abbrev pub legacy_player_count : CapturedMatch → ℤ
legacy_player_count m =
    if Playlists.has_authoritative_id m.playlist_id
    then pos 0
    else if ltb_ℤ (pos 0) m.legacy_max_players_seen
    then m.legacy_max_players_seen
    else m.legacy_max_team_players_seen.0 +ℤ m.legacy_max_team_players_seen.1

-- Fields that it leaves as they are have the initial values of the struct.
unfoldable pub build_match_save_snapshot : CapturedMatch → ℤ → MatchEndDecision → MatchSaveSnapshot
build_match_save_snapshot m winner_team decision = record {
  arena_name = m.arena_name;
  arena_asset = m.arena_asset;
  match_guid = m.match_guid;
  playlist_id = m.playlist_id;
  gamemode = m.mode;
  my_team = m.my_team;
  winner_team = winner_team;
  valid_result = decision.should_persist;
  void_reason = decision.void_reason;
  score = m.score;
  legacy_player_count = legacy_player_count m;
  roster = [];
  roster_mmr_category = m.roster_mmr_category;
  my_primary_id = m.my_primary_id;
  local_mmr_needs_reconciliation = false;
  ended_at_unix_ms = m.ended_at_unix_ms;
  result_pending = false;
  local_stats = m.stats;
}

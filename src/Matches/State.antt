-- ===== src/Matches/State.antt =====
-- `MatchState` of src/core/state/MatchState.hpp; what is left out is said in Matches/Types.
use omni_stats.Prelude.{ℕ, String, Bool, true, false, List, [], Option, none}
use omni_stats.Prelude.Int.{ℤ, pos, negsuc}
use omni_stats.Prelude.Text.{Text}
use omni_stats.Playlists.{MmrCategory}
use omni_stats.Matches.Types.{
  PlayerData, MatchStats, no_stats, LocalPreMatchMmrSnapshot, SessionTotals, no_totals,
  GamemodeStat, SessionRecap, no_recap, CapturedMatch,
}

pub record MatchState : Type 0 where
  pub version : ℕ
  pub in_match : Bool
  pub in_replay : Bool
  pub my_team : ℤ
  pub my_primary_id : String
  pub arena_name : Text
  pub arena_asset : Text
  pub match_guid : String
  pub playlist_id : ℤ
  pub active_match_generation : ℕ
  pub score : ℤ × ℤ
  pub legacy_max_players_seen : ℤ
  pub round_ever_started : Bool
  pub local_player_was_active : Bool
  pub local_player_was_spectator : Bool
  pub local_player_presence_observed : Bool
  pub local_player_present_in_latest_update : Bool
  pub explicit_local_forfeit : Bool
  pub excluded_early_exit_context : Bool
  pub early_exit_exclusion_reason : String
  pub fallback_casual_context : Bool
  pub fallback_non_recordable_context : Bool
  pub fallback_non_recordable_reason : String
  pub legacy_lobby_was_ever_full : Bool
  pub legacy_current_team_players_seen : ℤ × ℤ
  pub legacy_max_team_players_seen : ℤ × ℤ
  pub last_match_was_void : Bool
  pub last_match_void_reason : String
  pub match_summary_score : ℤ × ℤ
  pub match_summary_my_team : ℤ
  pub match_summary_winner_team : ℤ
  pub is_overtime : Bool
  pub current_match : MatchStats
  pub session_totals : SessionTotals
  pub roster : List (String × PlayerData)
  pub match_roster : List (String × PlayerData)
  pub session_gamemodes : List (String × GamemodeStat)
  pub pre_match_mmr_by_guid : List (String × LocalPreMatchMmrSnapshot)
  pub match_finalized : Bool
  pub session_started_at_unix : ℤ
  pub last_match_ended_at_unix : ℤ
  pub session_match_guids : List String
  pub last_session_recap : SessionRecap
  pub session_generation : ℕ
  pub last_player_boost : List (String × ℤ)
  pub boost_respawn_pending : List String
  pub pending_destroyed_matches : List (String × CapturedMatch)
  pub finalized_match_guids : List String
  pub next_match_generation : ℕ
  pub missing_guid_association_blocked_by_reconnect : Bool
  pub non_live_replay_active : Bool
  pub last_player_seen_ms : List (String × ℤ)
  pub round_active : Bool
  pub ui_match_guid : String
  pub countdown_seen_this_round : Bool
  pub identity_candidates : List String
  pub missed_my_id_count : ℤ
  pub last_known_my_id : String
  pub last_confirmed_local_account : String
  pub auto_switched_playlist_category : MmrCategory
  pub followed_graph_playlist_category : MmrCategory
  pub overtime_started_at_ms : Option ℤ
  pub current_pause_start_ms : Option ℤ
  pub current_reducer_now_ms : ℤ
  pub pause_intervals : List (ℤ × ℤ)
  pub last_match_start_ms : ℤ
  pub first_countdown_of_match_ms : ℤ
  pub last_countdown_ms : ℤ
  pub last_goal_ms : ℤ
  pub last_match_end_ms : ℤ
  pub last_podium_ms : ℤ
  pub in_goal_replay : Bool
  pub show_match_summary : Bool
  pub match_summary_start_ms : ℤ
  pub hide_overlay_requested : Bool

-- The initial values of the struct.
abbrev pub new_match_state : MatchState
new_match_state = record {
  version = 1;
  in_match = false;
  in_replay = false;
  my_team = negsuc 0;
  my_primary_id = "";
  arena_name = [];
  arena_asset = [];
  match_guid = "";
  playlist_id = negsuc 0;
  active_match_generation = 0;
  score = (pos 0, pos 0);
  legacy_max_players_seen = pos 0;
  round_ever_started = false;
  local_player_was_active = false;
  local_player_was_spectator = false;
  local_player_presence_observed = false;
  local_player_present_in_latest_update = false;
  explicit_local_forfeit = false;
  excluded_early_exit_context = false;
  early_exit_exclusion_reason = "";
  fallback_casual_context = false;
  fallback_non_recordable_context = false;
  fallback_non_recordable_reason = "";
  legacy_lobby_was_ever_full = false;
  legacy_current_team_players_seen = (pos 0, pos 0);
  legacy_max_team_players_seen = (pos 0, pos 0);
  last_match_was_void = false;
  last_match_void_reason = "";
  match_summary_score = (pos 0, pos 0);
  match_summary_my_team = negsuc 0;
  match_summary_winner_team = negsuc 0;
  is_overtime = false;
  current_match = no_stats;
  session_totals = no_totals;
  roster = [];
  match_roster = [];
  session_gamemodes = [];
  pre_match_mmr_by_guid = [];
  match_finalized = false;
  session_started_at_unix = pos 0;
  last_match_ended_at_unix = pos 0;
  session_match_guids = [];
  last_session_recap = no_recap;
  session_generation = 0;
  last_player_boost = [];
  boost_respawn_pending = [];
  pending_destroyed_matches = [];
  finalized_match_guids = [];
  next_match_generation = 0;
  missing_guid_association_blocked_by_reconnect = false;
  non_live_replay_active = false;
  last_player_seen_ms = [];
  round_active = true;
  ui_match_guid = "";
  countdown_seen_this_round = false;
  identity_candidates = [];
  missed_my_id_count = pos 0;
  last_known_my_id = "";
  last_confirmed_local_account = "";
  auto_switched_playlist_category = MmrCategory.best;
  followed_graph_playlist_category = MmrCategory.best;
  overtime_started_at_ms = none;
  current_pause_start_ms = none;
  current_reducer_now_ms = pos 0;
  pause_intervals = [];
  last_match_start_ms = pos 0;
  first_countdown_of_match_ms = pos 0;
  last_countdown_ms = pos 0;
  last_goal_ms = pos 0;
  last_match_end_ms = pos 0;
  last_podium_ms = pos 0;
  in_goal_replay = false;
  show_match_summary = false;
  match_summary_start_ms = pos 0;
  hide_overlay_requested = false;
}

-- ===== src/Reducer/Types.antt =====
-- What the reducer is given and what it asks for: src/core/reducer/TelemetryReducer.hpp, the events of
-- src/network/telemetry/TelemetryEvents.hpp and src/core/effects/SideEffects.hpp. Of the settings and
-- effects the records keep what the modelled handlers read or write.
use omni_stats.Prelude.{String, Bool, false, List, [], Option, none}
use omni_stats.Prelude.Int.{ℤ, pos, negsuc}
use omni_stats.Prelude.Text.{Text}
use omni_stats.Playlists.{MmrCategory}
use omni_stats.Matches.{PlayerData, MatchStats, SessionRecap}
use omni_stats.Matches.Refresh.{PostMatchMmrRefresh}

pub record Config : Type 0 where
  pub reset_session_on_close : Bool
  pub enable_mmr_tracking : Bool
  pub custom_api_enabled : Bool
  pub account_refresh_token : String

-- `steady_now_ms` and `system_now_ms` are what the clocks read while the event is reduced.
pub record ReducerContext : Type 0 where
  pub now_ms : ℤ
  pub now_unix : ℤ
  pub config : Config
  pub steady_now_ms : ℤ
  pub system_now_ms : ℤ

pub record ForfeitScope : Type 0 where
  pub local_flag : Bool
  pub forfeit : Bool
  pub forfeit_team : Option ℤ
  pub winner_team : Option ℤ

pub record MatchEndedEvent : Type 0 where
  pub match_guid : String
  pub winner_team : ℤ
  pub team_scores : Option (ℤ × ℤ)
  pub forfeit_scopes : List ForfeitScope

pub record MatchDestroyedEvent : Type 0 where
  pub match_guid : String
  pub team_scores : Option (ℤ × ℤ)
  pub forfeit_scopes : List ForfeitScope
  pub winner_team : Option ℤ

pub record DiscordPresenceSnapshot : Type 0 where
  pub show_presence : Bool
  pub in_match : Bool
  pub match_guid : String
  pub arena_name : Text
  pub score : ℤ × ℤ
  pub my_team : ℤ
  pub session_wins : ℤ
  pub session_losses : ℤ

abbrev pub no_presence : DiscordPresenceSnapshot
no_presence = record {
  show_presence = false;
  in_match = false;
  match_guid = "";
  arena_name = [];
  score = (pos 0, pos 0);
  my_team = negsuc 0;
  session_wins = pos 0;
  session_losses = pos 0;
}

pub record UiStateUpdate : Type 0 where
  pub last_match_start_ms : Option ℤ
  pub first_countdown_of_match_ms : Option ℤ
  pub last_countdown_ms : Option ℤ
  pub last_goal_ms : Option ℤ
  pub last_match_end_ms : Option ℤ
  pub last_podium_ms : Option ℤ
  pub in_goal_replay : Option Bool
  pub show_match_summary : Option Bool
  pub match_summary_start_ms : Option ℤ
  pub reset_timestamps : Bool
  pub reset_match_start_ms : ℤ
  pub match_reset : Bool

abbrev pub no_update : UiStateUpdate
no_update = record {
  last_match_start_ms = none;
  first_countdown_of_match_ms = none;
  last_countdown_ms = none;
  last_goal_ms = none;
  last_match_end_ms = none;
  last_podium_ms = none;
  in_goal_replay = none;
  show_match_summary = none;
  match_summary_start_ms = none;
  reset_timestamps = false;
  reset_match_start_ms = pos 0;
  match_reset = false;
}

pub record MatchSaveSnapshot : Type 0 where
  pub arena_name : Text
  pub arena_asset : Text
  pub match_guid : String
  pub playlist_id : ℤ
  pub gamemode : String
  pub my_team : ℤ
  pub winner_team : ℤ
  pub valid_result : Bool
  pub void_reason : String
  pub score : ℤ × ℤ
  pub legacy_player_count : ℤ
  pub roster : List (String × PlayerData)
  pub roster_mmr_category : MmrCategory
  pub my_primary_id : String
  pub local_mmr_needs_reconciliation : Bool
  pub ended_at_unix_ms : ℤ
  pub result_pending : Bool
  pub local_stats : MatchStats

pub record PendingDestroyedMatchMmrRefresh : Type 0 where
  pub primary_id : String
  pub name : String
  pub match_guid : String
  pub playlist : String
  pub local_team : ℤ
  pub score : ℤ × ℤ
  pub previous_mmr : ℤ
  pub previous_matches : ℤ
  pub previous_mmr_is_playlist_specific : Bool
  pub local_player_disappeared : Bool
  pub explicit_local_forfeit : Bool
  pub destroyed_at_unix_ms : ℤ
  pub valid_competitive_match : Bool

pub record SessionMatchSummary : Type 0 where
  pub ranked : Bool
  pub mode : String
  pub match_guid : String
  pub our_score : ℤ
  pub their_score : ℤ
  pub mmr : ℤ
  pub win : Bool
  pub pending_tracker_confirmation : Bool
  pub ended_at_unix : ℤ

pub record ResolvedDestroyedMatch : Type 0 where
  pub match_guid : String
  pub won : Bool

-- `saveMatch` and `saveSnapshot` are one field here: the snapshot is there exactly where the flag is
-- set. So are `pushDiscord` and `discordSnapshot`.
pub record SideEffects : Type 0 where
  pub discord : Option DiscordPresenceSnapshot
  pub fetch_mmr_queue : List (String × String)
  pub post_match_mmr_refresh : Option PostMatchMmrRefresh
  pub pending_destroyed_match : Option PendingDestroyedMatchMmrRefresh
  pub pending_match_history : Option SessionMatchSummary
  pub resolved_destroyed_match : Option ResolvedDestroyedMatch
  pub fetch_encounter_queue : List String
  pub save : Option MatchSaveSnapshot
  pub provisional_save_snapshot : Option MatchSaveSnapshot
  pub close_session_if_inactive_at_unix : Option ℤ
  pub update_session : Option SessionRecap
  pub ui_update : Option UiStateUpdate

abbrev pub no_effects : SideEffects
no_effects = record {
  discord = none;
  fetch_mmr_queue = [];
  post_match_mmr_refresh = none;
  pending_destroyed_match = none;
  pending_match_history = none;
  resolved_destroyed_match = none;
  fetch_encounter_queue = [];
  save = none;
  provisional_save_snapshot = none;
  close_session_if_inactive_at_unix = none;
  update_session = none;
  ui_update = none;
}

-- `MatchFinalizeSource`.
pub data MatchFinalizeSource : Type 0 where
  match_ended match_destroyed local_forfeit tracker_confirmed_destroyed : MatchFinalizeSource

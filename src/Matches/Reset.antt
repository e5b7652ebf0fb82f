-- ===== src/Matches/Reset.antt =====
-- The methods of `MatchState` in src/core/state/MatchState.cpp that reset it.
use omni_stats.Prelude.{
  ◌+◌, ◌%◌, ◌^◌, String, Bool, true, false, ◌||◌, List, [], ◌∷◌, ◌++◌, none, some, str_eq,
  if◌then◌else◌,
}
use omni_stats.Prelude.Int.{ℤ, pos, negsuc, ◌+ℤ◌, ◌-ℤ◌, ltb_ℤ, leb_ℤ}
use omni_stats.Prelude.Maps.{member}
use omni_stats.Prelude.Text.{Text}
use omni_stats.Matches.Types.{no_stats, no_totals, SessionRecap}
use omni_stats.Matches.State.{MatchState}

unfoldable pub reset_timing : MatchState → MatchState
reset_timing state = record state {
  overtime_started_at_ms = none;
  current_pause_start_ms = none;
  pause_intervals = [];
}

unfoldable pub reset_match : Text → Text → MatchState → MatchState
reset_match new_arena new_arena_asset state = record state {
  in_match = true;
  in_replay = false;
  my_team = negsuc 0;
  arena_name = new_arena;
  arena_asset = new_arena_asset;
  playlist_id = negsuc 0;
  score = (pos 0, pos 0);
  legacy_max_players_seen = pos 0;
  round_ever_started = false;
  local_player_was_active = false;
  local_player_was_spectator = false;
  local_player_presence_observed = false;
  local_player_present_in_latest_update = false;
  explicit_local_forfeit = false;
  excluded_early_exit_context = false;
  early_exit_exclusion_reason = "";
  fallback_casual_context = false;
  fallback_non_recordable_context = false;
  fallback_non_recordable_reason = "";
  legacy_lobby_was_ever_full = false;
  legacy_current_team_players_seen = (pos 0, pos 0);
  legacy_max_team_players_seen = (pos 0, pos 0);
  last_match_was_void = false;
  last_match_void_reason = "";
  match_summary_score = (pos 0, pos 0);
  match_summary_my_team = negsuc 0;
  match_summary_winner_team = negsuc 0;
  is_overtime = false;
  current_match = no_stats;
  roster = [];
  match_roster = [];
  pre_match_mmr_by_guid = [];
  match_finalized = false;
  show_match_summary = false;
  last_match_start_ms = pos 0;
  first_countdown_of_match_ms = pos 0;
  last_countdown_ms = pos 0;
  last_goal_ms = pos 0;
  last_match_end_ms = pos 0;
  last_podium_ms = pos 0;
  in_goal_replay = false;
  hide_overlay_requested = true;
}

unfoldable pub clear_active_match_on_disconnect : MatchState → MatchState
unfolding reset_timing
clear_active_match_on_disconnect state = reset_timing (record state {
  in_match = false;
  in_replay = false;
  my_team = negsuc 0;
  arena_name = [];
  arena_asset = [];
  match_guid = "";
  playlist_id = negsuc 0;
  score = (pos 0, pos 0);
  legacy_max_players_seen = pos 0;
  round_ever_started = false;
  local_player_was_active = false;
  local_player_was_spectator = false;
  local_player_presence_observed = false;
  local_player_present_in_latest_update = false;
  explicit_local_forfeit = false;
  excluded_early_exit_context = false;
  early_exit_exclusion_reason = "";
  fallback_casual_context = false;
  fallback_non_recordable_context = false;
  fallback_non_recordable_reason = "";
  legacy_lobby_was_ever_full = false;
  legacy_current_team_players_seen = (pos 0, pos 0);
  legacy_max_team_players_seen = (pos 0, pos 0);
  is_overtime = false;
  current_match = no_stats;
  roster = [];
  match_roster = [];
  pre_match_mmr_by_guid = [];
  match_finalized = false;
  in_goal_replay = false;
  show_match_summary = false;
})

-- What `StartNewSession` reads of `HistoryData`: the guids of `playlistMatchPoints`, in order, and the
-- account. Its call of `ResetSessionMmr` changes only that object.
pub record History : Type 0 where
  pub point_guids : List String
  pub mmr_owner_primary_id : String

abbrev pub push_new : String → List String → List String
push_new guid guids = if str_eq guid "" || member guid guids then guids else guids ++ guid ∷ []

abbrev pub push_all_new : List String → List String → List String
push_all_new [] guids = guids
push_all_new (guid ∷ rest) guids = push_all_new rest (push_new guid guids)

abbrev min_ℤ : ℤ → ℤ → ℤ
min_ℤ a b = if ltb_ℤ b a then b else a

abbrev pub session_recap : ℤ → History → MatchState → SessionRecap
session_recap ended_at_unix history state = record {
  valid = true;
  ended_at_unix = ended_at_unix;
  totals = state.session_totals;
  gamemodes = state.session_gamemodes;
  session_generation = state.session_generation;
  account =
      if str_eq state.my_primary_id "" then history.mmr_owner_primary_id else state.my_primary_id;
  started_at_unix =
      if ltb_ℤ (pos 0) state.session_started_at_unix
      then min_ℤ state.session_started_at_unix ended_at_unix
      else pos 0;
  match_guids = push_all_new history.point_guids state.session_match_guids;
}

abbrev pub games_played : MatchState → ℤ
games_played state = state.session_totals.wins +ℤ state.session_totals.losses

-- The new state, and whether a recap was captured. `history` is never null where this is called.
unfoldable pub start_new_session : ℤ → History → MatchState → MatchState × Bool
start_new_session ended_at_unix history state =
    let capture_recap = ltb_ℤ (pos 0) (games_played state) in
    (
      record state {
        last_session_recap =
            if capture_recap
            then session_recap ended_at_unix history state
            else state.last_session_recap;
        session_totals = no_totals;
        session_gamemodes = [];
        session_started_at_unix = pos 0;
        last_match_ended_at_unix = pos 0;
        session_match_guids = [];
        session_generation = (state.session_generation + 1) % 2 ^ 64;
      },
      capture_recap,
    )

-- The pauses within a window, in milliseconds; `PausedSecondsWithin` divides them by 1000 as a float.
abbrev pub overlap_ms : ℤ → ℤ → ℤ × ℤ → ℤ
overlap_ms window_start window_end (start, end) =
    let from = if ltb_ℤ window_start start then start else window_start in
    let to = if ltb_ℤ end window_end then end else window_end in
    if ltb_ℤ from to then to -ℤ from else pos 0

abbrev sum_overlaps : ℤ → ℤ → List (ℤ × ℤ) → ℤ
sum_overlaps window_start window_end [] = pos 0
sum_overlaps window_start window_end (p ∷ ps) =
    overlap_ms window_start window_end p +ℤ sum_overlaps window_start window_end ps

unfoldable pub paused_ms_within : ℤ → ℤ → MatchState → ℤ
paused_ms_within window_start window_end state =
    let closed = sum_overlaps window_start window_end state.pause_intervals in
    if leb_ℤ window_end window_start then pos 0 else elim state.current_pause_start_ms [
      | none ↦ closed
      | some start ↦ closed +ℤ overlap_ms window_start window_end (start, window_end)
    ]

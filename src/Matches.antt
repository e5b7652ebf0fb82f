-- ===== src/Matches.antt =====
-- src/core/reducer/TelemetryReducerMatchValidation.cpp and TelemetryReducerDetail.cpp: how a match is
-- named, captured, and judged when it ends or is left early.
--
-- A guid or player id is a `String`.
mod Types
mod State
pub mod Reset
pub mod Validation
pub mod Refresh
mod Examples
pub use Types.{
  PlayerData, blank_player, MatchStats, no_stats, LocalPreMatchMmrSnapshot, SessionTotals,
  no_totals, GamemodeStat, no_gamemode, SessionRecap, no_recap, CapturedMatch,
}
pub use State.{MatchState, new_match_state}
use omni_stats.Prelude.{
  ℕ, zero, suc, ◌+◌, String, Bool, true, false, ◌&&◌, ◌||◌, not, List, [], ◌∷◌, ◌++◌, Option, none,
  some, ltb, leb, ◌==◌, str_eq, if◌then◌else◌, is_empty, is_some, length,
}
use omni_stats.Prelude.Int.{ℤ, pos, negsuc, eqb_ℤ, leb_ℤ, ltb_ℤ}
use omni_stats.Prelude.Maps.{member, lookup, insert}
use omni_stats.Prelude.Text.{Text}
use omni_stats.Playlists
use omni_stats.Playlists.{MmrCategory}

unfoldable pub legacy_expected_team_size_for_mode : String → ℕ
legacy_expected_team_size_for_mode mode =
    if str_eq mode "1v1"
    then 1
    else if str_eq mode "2v2" || str_eq mode "hoops" || str_eq mode "heatseeker"
    then 2
    else if str_eq mode "3v3"
        || str_eq mode "rumble"
        || str_eq mode "dropshot"
        || str_eq mode "snowday"
    then 3
    else if str_eq mode "4v4"
    then 4
    else 0

abbrev min_ℤ : ℤ → ℤ → ℤ
min_ℤ a b = if ltb_ℤ b a then b else a

unfoldable pub category_from_team_counts : ℤ × ℤ → Bool → MmrCategory
category_from_team_counts (blue, orange) round_started =
    if leb_ℤ (pos 3) (min_ℤ blue orange)
    then MmrCategory.three_v_three
    else if leb_ℤ (pos 2) (min_ℤ blue orange)
    then MmrCategory.two_v_two
    else if round_started && eqb_ℤ blue (pos 1) && eqb_ℤ orange (pos 1)
    then MmrCategory.one_v_one
    else MmrCategory.best

unfoldable pub category_from_mode : String → MmrCategory
category_from_mode mode =
    if str_eq mode "1v1"
    then MmrCategory.one_v_one
    else if str_eq mode "2v2"
    then MmrCategory.two_v_two
    else if str_eq mode "3v3"
    then MmrCategory.three_v_three
    else if str_eq mode "hoops"
    then MmrCategory.hoops
    else if str_eq mode "rumble"
    then MmrCategory.rumble
    else if str_eq mode "dropshot"
    then MmrCategory.dropshot
    else if str_eq mode "snowday"
    then MmrCategory.snow_day
    else if str_eq mode "heatseeker"
    then MmrCategory.heatseeker
    else MmrCategory.best

abbrev arena_key : MatchState → Text
arena_key m = if not (is_empty m.arena_asset) then m.arena_asset else m.arena_name

-- `InferModeImpl`.
unfoldable pub infer_mode_from_match_state : MatchState → MmrCategory → String
infer_mode_from_match_state m roster_category =
    let playlist_mode = Playlists.canonical_mode m.playlist_id in
    if Playlists.has_authoritative_id m.playlist_id
    then (if str_eq playlist_mode "" then "unknown" else playlist_mode)
    else if m.fallback_casual_context
    then "casual"
    else if m.fallback_non_recordable_context
    then "unknown"
    else Playlists.infer_from_snapshot m.legacy_max_players_seen (length m.roster) roster_category
        (arena_key m)

-- `CategoryFromMatchContextImpl`.
unfoldable pub category_from_match_context : MatchState → MmrCategory
category_from_match_context m =
    if Playlists.has_authoritative_id m.playlist_id
    then Playlists.category m.playlist_id
    else if m.fallback_non_recordable_context
    then MmrCategory.best
    else if m.fallback_casual_context
    then MmrCategory.casual
    else elim (category_from_mode (Playlists.infer_from_arena_name (arena_key m))) [
      | MmrCategory.best ↦
          category_from_team_counts m.legacy_max_team_players_seen m.round_ever_started
      | arena_category ↦ arena_category
    ]

unfoldable pub is_supported_mmr_category : MmrCategory → Bool
is_supported_mmr_category MmrCategory.one_v_one = true
is_supported_mmr_category MmrCategory.two_v_two = true
is_supported_mmr_category MmrCategory.three_v_three = true
is_supported_mmr_category MmrCategory.casual = true
is_supported_mmr_category MmrCategory.tourny = true
is_supported_mmr_category c = Playlists.is_extra_mmr_category c

unfoldable pub is_tracked_ranked_early_exit_mode : String → Bool
is_tracked_ranked_early_exit_mode mode =
    str_eq mode "1v1"
    || str_eq mode "2v2"
    || str_eq mode "3v3"
    || str_eq mode "hoops"
    || str_eq mode "rumble"
    || str_eq mode "dropshot"
    || str_eq mode "snowday"
    || str_eq mode "heatseeker"

unfoldable pub accepts_analytics_event : MatchState → String → Bool → Bool
accepts_analytics_event state event_match_guid during_replay =
    if not state.in_match
      || state.match_finalized
      || (state.in_replay && not during_replay)
      || state.non_live_replay_active
      || state.fallback_non_recordable_context
      || Playlists.is_non_recordable state.playlist_id
    then false
    else if str_eq event_match_guid ""
    then not (state.missing_guid_association_blocked_by_reconnect && str_eq state.match_guid "")
    else if not (str_eq state.match_guid "") && not (str_eq event_match_guid state.match_guid)
    then false
    else not (member event_match_guid state.finalized_match_guids)
      && not (is_some (lookup event_match_guid state.pending_destroyed_matches))

-- `for (const auto& [primaryId, player] : state.roster) match.roster[primaryId] = player;`
merge_roster : List (String × PlayerData) → List (String × PlayerData) → List (String × PlayerData)
merge_roster all [] = all
merge_roster all ((primary_id, player) ∷ rest) = merge_roster (insert primary_id player all) rest

abbrev no_snapshot : LocalPreMatchMmrSnapshot
no_snapshot = record { playlist_mmrs = []; playlist_matches = [] }

abbrev snapshot_or : Option LocalPreMatchMmrSnapshot → LocalPreMatchMmrSnapshot
snapshot_or none = no_snapshot
snapshot_or (some s) = s

-- `now_unix_ms` is the reading of the system clock.
unfoldable pub capture_match : ℤ → MatchState → CapturedMatch
unfolding merge_roster
capture_match now_unix_ms state = record {
  arena_name = state.arena_name;
  arena_asset = state.arena_asset;
  match_guid = state.match_guid;
  playlist_id = state.playlist_id;
  match_generation = state.active_match_generation;
  session_generation = state.session_generation;
  my_primary_id = state.my_primary_id;
  my_team = state.my_team;
  score = state.score;
  legacy_max_players_seen = state.legacy_max_players_seen;
  legacy_max_team_players_seen = state.legacy_max_team_players_seen;
  round_ever_started = state.round_ever_started;
  local_player_was_active = state.local_player_was_active;
  local_player_was_spectator = state.local_player_was_spectator;
  legacy_lobby_was_ever_full = state.legacy_lobby_was_ever_full;
  local_player_disappeared =
      state.local_player_presence_observed && not state.local_player_present_in_latest_update;
  explicit_local_forfeit = state.explicit_local_forfeit;
  fallback_casual_context = state.fallback_casual_context;
  fallback_non_recordable_context = state.fallback_non_recordable_context;
  fallback_non_recordable_reason = state.fallback_non_recordable_reason;
  non_live_replay = state.non_live_replay_active;
  stats = state.current_match;
  roster = merge_roster state.match_roster state.roster;
  roster_mmr_category = state.auto_switched_playlist_category;
  mode = infer_mode_from_match_state state state.auto_switched_playlist_category;
  pre_match_mmr = snapshot_or (lookup state.match_guid state.pre_match_mmr_by_guid);
  has_pre_match_mmr = is_some (lookup state.match_guid state.pre_match_mmr_by_guid);
  ended_at_unix_ms = now_unix_ms;
}

pub record MatchEndDecision : Type 0 where
  pub should_count : Bool
  pub should_persist : Bool
  pub i_won : Bool
  pub result_text : String
  pub void_reason : String

abbrev pub void_decision : String → MatchEndDecision
void_decision reason = record {
  should_count = false;
  should_persist = false;
  i_won = false;
  result_text = "Void";
  void_reason = reason;
}

abbrev pub is_team : ℤ → Bool
is_team t = eqb_ℤ t (pos 0) || eqb_ℤ t (pos 1)

-- `expectedTeamSize` players were seen on both teams, or the lobby was full.
abbrev pub lobby_was_full : Bool → ℤ × ℤ → ℕ → Bool
lobby_was_full ever_full (blue, orange) expected =
    ever_full || (leb_ℤ (pos expected) blue && leb_ℤ (pos expected) orange)

-- The last checks of `ClassifyMatchEnd`, and its result when the match counts.
unfoldable pub classify_lobby : CapturedMatch → ℤ → MatchEndDecision
classify_lobby m winner_team =
    let expected = legacy_expected_team_size_for_mode m.mode in
    if not (Playlists.has_authoritative_id m.playlist_id)
      && ltb 0 expected
      && not (lobby_was_full m.legacy_lobby_was_ever_full m.legacy_max_team_players_seen expected)
    then void_decision "lobby_never_full"
    else record {
      should_count = true;
      should_persist = true;
      i_won = eqb_ℤ winner_team m.my_team;
      result_text = if eqb_ℤ winner_team m.my_team then "Win" else "Loss";
      void_reason = "";
    }

-- From the check of the winner on.
unfoldable pub classify_played : CapturedMatch → ℤ → MatchEndDecision
classify_played m winner_team =
    if not (is_team winner_team)
    then void_decision "invalid_winner"
    else if not (is_team m.my_team)
    then void_decision (
        if m.local_player_was_spectator
        then "local_player_spectator_bug"
        else "local_player_team_unknown")
    else if not m.round_ever_started
    then void_decision "round_never_started"
    else if not m.local_player_was_active
    then void_decision (
        if m.local_player_was_spectator
        then "local_player_spectator_bug"
        else "local_player_never_active")
    else classify_lobby m winner_team

unfoldable pub classify_match_end : CapturedMatch → ℤ → MatchEndDecision
classify_match_end m winner_team =
    let authoritative = Playlists.has_authoritative_id m.playlist_id in
    if m.non_live_replay
    then void_decision "non_live_replay"
    else if authoritative && not (Playlists.is_known m.playlist_id)
    then void_decision "unknown_playlist_id"
    else elim (Playlists.non_recordable_reason m.playlist_id) [
      | some reason ↦ void_decision reason
      | none ↦
          if not authoritative && m.fallback_non_recordable_context
          then void_decision (
              if str_eq m.fallback_non_recordable_reason ""
              then "explicit_non_competitive_context"
              else m.fallback_non_recordable_reason)
          else classify_played m winner_team
    ]

-- The result with what is written through `mode` and `voidReason`, which come in as arguments.
unfoldable pub is_valid_early_competitive_exit :
    MatchState → String → String → Bool × String × String
is_valid_early_competitive_exit state mode void_reason =
    let inferred = infer_mode_from_match_state state state.auto_switched_playlist_category in
    let expected = legacy_expected_team_size_for_mode inferred in
    if not state.in_match
    then (false, mode, "match_not_active")
    else if state.match_finalized
    then (false, mode, "match_already_finalized")
    else if state.non_live_replay_active
    then (false, mode, "non_live_replay")
    else if state.local_player_was_spectator
    then (false, mode, "local_player_spectator_bug")
    else if not state.round_ever_started
    then (false, mode, "round_never_started")
    else if not state.local_player_was_active
    then (false, mode, "local_player_never_active")
    else if not (is_team state.my_team)
    then (false, mode, "local_player_team_unknown")
    else if str_eq state.match_guid ""
    then (false, mode, "missing_match_guid")
    else if state.excluded_early_exit_context
    then (
      false,
      mode,
      (if str_eq state.early_exit_exclusion_reason ""
          then "explicit_non_competitive_context"
          else state.early_exit_exclusion_reason),
    )
    else if not (is_tracked_ranked_early_exit_mode inferred)
    then (false, inferred, "untracked_or_non_competitive_playlist")
    else if Playlists.has_authoritative_id state.playlist_id
    then (true, inferred, void_reason)
    else if expected == 0
    then (false, inferred, "unknown_competitive_team_size")
    else if not (
        lobby_was_full state.legacy_lobby_was_ever_full state.legacy_max_team_players_seen expected)
    then (false, inferred, "lobby_never_full")
    else (true, inferred, void_reason)

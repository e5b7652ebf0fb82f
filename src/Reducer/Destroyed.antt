-- ===== src/Reducer/Destroyed.antt =====
-- `HandleMatchDestroyed` and `MarkDestroyedMatchVoid` of
-- src/core/reducer/TelemetryReducerFinalize.cpp.
use omni_stats.Prelude.{
  suc, ◌/◌, String, Bool, true, false, ◌&&◌, ◌||◌, not, [], Option, none, some, str_eq,
  if◌then◌else◌, is_empty,
}
use omni_stats.Prelude.Int.{ℤ, pos, negsuc, ◌-ℤ◌, ltb_ℤ, eqb_ℤ}
use omni_stats.Matches.{
  MatchState, CapturedMatch, capture_match, classify_match_end, is_team,
  is_valid_early_competitive_exit,
}
use omni_stats.Matches.Reset.{reset_timing}
use omni_stats.Matches.Refresh.{PostMatchMmrRefresh, build_post_match_mmr_refresh}
use omni_stats.Reducer.Types.{
  ReducerContext, SideEffects, MatchFinalizeSource, MatchDestroyedEvent,
  PendingDestroyedMatchMmrRefresh, SessionMatchSummary, MatchSaveSnapshot,
}
use omni_stats.Reducer.Effects.{
  push_discord, build_match_save_snapshot, format_pending_match_history_mode,
}
use omni_stats.Reducer.Guids.{attach_terminal_guid_to_current, record_terminal_match_guid, emplace}
use omni_stats.Reducer.Finalize.{reconciles_mmr, finalize_match}
use omni_stats.Reducer.Terminal.{has_explicit_local_forfeit_signal, finalize_source, score_or}

unfoldable pub mark_destroyed_match_void :
    String → MatchState × SideEffects → MatchState × SideEffects
mark_destroyed_match_void reason (state, effects) =
    let recorded = record_terminal_match_guid state.match_guid state in
    let marked = record recorded {
      last_match_was_void = true;
      last_match_void_reason = reason;
      match_summary_score = recorded.score;
      match_summary_my_team = recorded.my_team;
      match_summary_winner_team = negsuc 0;
      match_finalized = true;
    } in
    (marked, push_discord marked effects)

abbrev pub pending_refresh : CapturedMatch → PostMatchMmrRefresh → PendingDestroyedMatchMmrRefresh
pending_refresh m refresh = record {
  primary_id = refresh.primary_id;
  name = refresh.name;
  match_guid = refresh.match_guid;
  playlist = refresh.playlist;
  local_team = m.my_team;
  score = m.score;
  previous_mmr = refresh.previous_mmr;
  previous_matches = refresh.previous_matches;
  previous_mmr_is_playlist_specific = refresh.previous_mmr_is_playlist_specific;
  local_player_disappeared = m.local_player_disappeared;
  explicit_local_forfeit = m.explicit_local_forfeit;
  destroyed_at_unix_ms = m.ended_at_unix_ms;
  valid_competitive_match = true;
}

-- The score of the local team first.
abbrev pub our_scores : CapturedMatch → ℤ × ℤ
our_scores m = if eqb_ℤ m.my_team (pos 1) then (m.score.1, m.score.0) else (m.score.0, m.score.1)

-- `destroyedAtMs / 1000`, which rounds towards 0.
abbrev pub whole_seconds : ℤ → ℤ
whole_seconds (pos n) = pos (n / 1000)
whole_seconds (negsuc n) = pos 0 -ℤ pos (suc n / 1000)

abbrev pub pending_summary : CapturedMatch → SessionMatchSummary
pending_summary m = record {
  ranked = true;
  mode = format_pending_match_history_mode m.mode;
  match_guid = m.match_guid;
  our_score = (our_scores m).0;
  their_score = (our_scores m).1;
  mmr = pos 0;
  win = ltb_ℤ (our_scores m).1 (our_scores m).0;
  pending_tracker_confirmation = true;
  ended_at_unix = whole_seconds m.ended_at_unix_ms;
}

unfoldable pub provisional_winner : CapturedMatch → ℤ
provisional_winner m =
    if not m.local_player_disappeared && ltb_ℤ (our_scores m).1 (our_scores m).0
    then m.my_team
    else pos 1 -ℤ m.my_team

-- The save with the likely result, which waits for the tracker.
unfoldable pub provisional_save : CapturedMatch → ReducerContext → Option MatchSaveSnapshot
provisional_save m ctx =
    let winner = provisional_winner m in
    let decision = classify_match_end m winner in
    if is_team m.my_team
      && (m.local_player_disappeared || not (eqb_ℤ m.score.0 m.score.1))
      && decision.should_persist
    then some (record (build_match_save_snapshot m winner decision) {
      roster = m.roster;
      local_mmr_needs_reconciliation = reconciles_mmr ctx;
      result_pending = true;
    })
    else none

abbrev pub save_or : Option MatchSaveSnapshot → Option MatchSaveSnapshot → Option MatchSaveSnapshot
save_or other none = other
save_or other (some s) = some s

-- The captured match waits for the tracker.
abbrev pub keep_pending :
    CapturedMatch
    → PostMatchMmrRefresh
    → ReducerContext
    → MatchState × SideEffects
    → MatchState × SideEffects
keep_pending m refresh ctx (state, effects) = (
  record state {
    pending_destroyed_matches = emplace m.match_guid m state.pending_destroyed_matches;
    last_match_was_void = true;
    last_match_void_reason = "destroyed_pending_tracker_confirmation";
    match_summary_score = state.score;
    match_summary_my_team = state.my_team;
    match_summary_winner_team = negsuc 0;
  },
  record effects {
    pending_match_history = some (pending_summary m);
    provisional_save_snapshot = save_or effects.provisional_save_snapshot (provisional_save m ctx);
    pending_destroyed_match = some (pending_refresh m refresh);
  },
)

abbrev pub keep_or_void :
    CapturedMatch
    → Option PostMatchMmrRefresh
    → ReducerContext
    → MatchState × SideEffects
    → MatchState × SideEffects
keep_or_void m none ctx r = mark_destroyed_match_void "missing_local_tracker_identity" r
keep_or_void m (some refresh) ctx r = keep_pending m refresh ctx r

-- The end of a match without a winner, by what `IsValidEarlyCompetitiveExit` says.
abbrev pub leave_early :
    Bool × String × String → ReducerContext → MatchState × SideEffects → MatchState × SideEffects
leave_early (false, mode, void_reason) ctx r = mark_destroyed_match_void void_reason r
leave_early (true, mode, void_reason) ctx (state, effects) =
    let m = record (capture_match ctx.system_now_ms state) { mode = mode } in
    if state.explicit_local_forfeit
    then finalize_match (pos 1 -ℤ state.my_team) MatchFinalizeSource.local_forfeit ctx
        (state, effects)
    else keep_or_void m (build_post_match_mmr_refresh m false) ctx (state, effects)

-- `ev.winnerTeam.value_or(-1)`.
abbrev pub winner_or_none : Option ℤ → ℤ
winner_or_none none = negsuc 0
winner_or_none (some winner) = winner

-- What becomes of the result of the current match.
unfoldable pub settle : ℤ → ReducerContext → MatchState × SideEffects → MatchState × SideEffects
settle winner ctx (state, effects) =
    if state.match_finalized
    then (state, effects)
    else if is_team winner
    then finalize_match winner
        (finalize_source (state.explicit_local_forfeit && not (eqb_ℤ winner state.my_team))
          MatchFinalizeSource.match_destroyed)
        ctx (state, effects)
    else leave_early (is_valid_early_competitive_exit state "" "") ctx (state, effects)

-- The event names another match than the current one.
unfoldable pub is_for_other_match : MatchState → String → Bool
is_for_other_match state event_match_guid =
    state.in_match
    && (if str_eq event_match_guid ""
        then not (is_empty state.pending_destroyed_matches)
          || not (str_eq state.match_guid "")
          || state.missing_guid_association_blocked_by_reconnect
        else not (str_eq event_match_guid state.match_guid))

abbrev pub note_destroyed : MatchDestroyedEvent → MatchState → MatchState
note_destroyed ev state = record state {
  round_active = false;
  explicit_local_forfeit =
      state.explicit_local_forfeit
      || has_explicit_local_forfeit_signal ev.forfeit_scopes state.my_team;
  score = score_or state.score ev.team_scores;
}

abbrev pub clear_ui : MatchState → MatchState
clear_ui state = reset_timing (record state {
  in_goal_replay = false;
  first_countdown_of_match_ms = pos 0;
  last_countdown_ms = pos 0;
  last_goal_ms = pos 0;
  last_match_start_ms = pos 0;
  ui_match_guid = "";
  countdown_seen_this_round = false;
})

-- Back to the menu.
abbrev pub leave_arena : MatchState × SideEffects → MatchState × SideEffects
leave_arena (state, effects) =
    let left = record state {
      in_match = false;
      arena_name = [];
      arena_asset = [];
      my_team = negsuc 0;
      in_replay = false;
      non_live_replay_active = false;
    } in
    (left, push_discord left effects)

unfoldable pub handle_match_destroyed :
    MatchDestroyedEvent → ReducerContext → MatchState × SideEffects → MatchState × SideEffects
handle_match_destroyed ev ctx (state, effects) =
    let attached = attach_terminal_guid_to_current ev.match_guid state in
    let noted = note_destroyed ev attached in
    if is_for_other_match attached ev.match_guid
    then (attached, effects)
    else if not noted.in_match
    then (noted, effects)
    else leave_arena (settle (winner_or_none ev.winner_team) ctx (clear_ui noted, effects))

-- ===== src/Reducer/Finalize.antt =====
-- src/core/reducer/TelemetryReducerFinalize.cpp: how a match that is over is judged, counted and saved.
use omni_stats.Prelude.{
  String, Bool, true, false, ◌&&◌, ◌||◌, not, List, [], ◌∷◌, ◌++◌, Option, none, some, ◌/◌, ◌==◌,
  str_eq, if◌then◌else◌, is_some,
}
use omni_stats.Prelude.Int.{ℤ, pos, negsuc, ltb_ℤ, leb_ℤ, eqb_ℤ}
use omni_stats.Matches.{
  MatchState, PlayerData, SessionRecap, CapturedMatch, MatchEndDecision, capture_match,
  classify_match_end,
}
use omni_stats.Matches.Reset.{reset_timing, push_new}
use omni_stats.Matches.Refresh.{PostMatchMmrRefresh, build_post_match_mmr_refresh}
use omni_stats.Reducer.Types.{ReducerContext, SideEffects, MatchFinalizeSource, no_update}
use omni_stats.Reducer.Effects.{
  event_now_ms, push_discord, is_unknown_player, build_match_save_snapshot,
}
use omni_stats.Reducer.Guids.{is_finalized_guid, record_terminal_match_guid}
use omni_stats.Reducer.Totals.{add_match_to_session_totals, max_ℤ}

-- `match.endedAtUnixMs > 0 ? match.endedAtUnixMs / 1000 : 0`.
abbrev pub ended_unix : ℤ → ℤ
ended_unix (pos n) = pos (n / 1000)
ended_unix (negsuc n) = pos 0

unfoldable pub is_current_match : MatchState → CapturedMatch → Bool
is_current_match state m =
    m.match_generation == state.active_match_generation && str_eq m.match_guid state.match_guid

abbrev pub summary_start_ms : ℤ → MatchState → ℤ
summary_start_ms now_ms state =
    if ltb_ℤ (pos 0) state.last_podium_ms
      && (leb_ℤ state.last_match_start_ms (pos 0)
          || leb_ℤ state.last_match_start_ms state.last_podium_ms)
    then state.last_podium_ms
    else now_ms

-- The part under `if (isCurrentMatch)`.
unfoldable pub show_result :
    CapturedMatch
    → ℤ
    → MatchEndDecision
    → ReducerContext
    → MatchState × SideEffects
    → MatchState × SideEffects
show_result m winner_team decision ctx (state, effects) =
    let now_ms = event_now_ms ctx in
    let end_ms =
      if leb_ℤ state.last_match_end_ms (pos 0) then now_ms else state.last_match_end_ms in
    (
      record state {
        match_finalized = true;
        last_match_was_void = not decision.should_count;
        last_match_void_reason = decision.void_reason;
        match_summary_score = m.score;
        match_summary_my_team = m.my_team;
        match_summary_winner_team = winner_team;
        last_match_end_ms = end_ms;
        in_goal_replay = false;
        show_match_summary = true;
        match_summary_start_ms = summary_start_ms now_ms state;
      },
      record effects {
        ui_update = some (record no_update {
          last_match_end_ms = some end_ms;
          in_goal_replay = some false;
          show_match_summary = some true;
          match_summary_start_ms = some (summary_start_ms now_ms state);
        });
      },
    )

-- `if (isCurrentMatch) { push the presence }`, and `ResetTiming`.
unfoldable pub leave_match : Bool → MatchState × SideEffects → MatchState × SideEffects
leave_match true (state, effects) = (reset_timing state, push_discord state effects)
leave_match false (state, effects) = (reset_timing state, effects)

-- The first and last end of a match of the session.
abbrev pub note_ended : ℤ → MatchState → MatchState
note_ended ended state = record state {
  session_started_at_unix =
      if ltb_ℤ (pos 0) ended
        && (leb_ℤ state.session_started_at_unix (pos 0)
            || ltb_ℤ ended state.session_started_at_unix)
      then ended
      else state.session_started_at_unix;
  last_match_ended_at_unix =
      if ltb_ℤ (pos 0) ended
      then max_ℤ state.last_match_ended_at_unix ended
      else state.last_match_ended_at_unix;
}

abbrev pub count_in_session : CapturedMatch → Bool → MatchState → MatchState
count_in_session m i_won state =
    let totals =
      add_match_to_session_totals m i_won (state.session_totals, state.session_gamemodes) in
    note_ended (ended_unix m.ended_at_unix_ms) (record state {
      session_totals = totals.0;
      session_gamemodes = totals.1;
      session_match_guids = push_new m.match_guid state.session_match_guids;
    })

abbrev pub count_in_recap : CapturedMatch → Bool → SessionRecap → SessionRecap
count_in_recap m i_won recap =
    let totals = add_match_to_session_totals m i_won (recap.totals, recap.gamemodes) in
    record recap {
      totals = totals.0;
      gamemodes = totals.1;
      match_guids = push_new m.match_guid recap.match_guids;
      account = if str_eq recap.account "" then m.my_primary_id else recap.account;
    }

unfoldable pub count_match :
    CapturedMatch → Bool → MatchState × SideEffects → MatchState × SideEffects
count_match m i_won (state, effects) =
    let recap = state.last_session_recap in
    let recap_with_match = count_in_recap m i_won recap in
    if m.session_generation == state.session_generation
    then (count_in_session m i_won state, effects)
    else if recap.valid && recap.session_generation == m.session_generation
    then (
      record state { last_session_recap = recap_with_match },
      record effects { update_session = some recap_with_match },
    )
    else (state, effects)

-- The players of the match whose encounters are to be read.
abbrev pub encounters : String → List (String × PlayerData) → List String
encounters my_primary_id [] = []
encounters my_primary_id ((primary_id, player) ∷ rest) =
    let others = encounters my_primary_id rest in
    if str_eq primary_id my_primary_id || is_unknown_player primary_id
    then others
    else primary_id ∷ others

-- The players of the local team whose ratings are to be read again.
abbrev pub team_queue : CapturedMatch → Bool → List (String × PlayerData) → List (String × String)
team_queue m has_local_refresh [] = []
team_queue m has_local_refresh ((primary_id, player) ∷ rest) =
    let others = team_queue m has_local_refresh rest in
    if not (eqb_ℤ player.team m.my_team) || (has_local_refresh && str_eq primary_id m.my_primary_id)
    then others
    else (primary_id, player.name) ∷ others

abbrev pub is_local_forfeit : MatchFinalizeSource → Bool
is_local_forfeit MatchFinalizeSource.local_forfeit = true
is_local_forfeit source = false

abbrev pub local_refresh :
    CapturedMatch → Bool → MatchFinalizeSource → Bool → Option PostMatchMmrRefresh
local_refresh m i_won source false = none
local_refresh m i_won source true = elim (build_post_match_mmr_refresh m i_won) [
  | none ↦ none
  | some refresh ↦ some (record refresh { provisional_immediately = is_local_forfeit source })
]

abbrev pub refresh_or :
    Option PostMatchMmrRefresh → Option PostMatchMmrRefresh → Option PostMatchMmrRefresh
refresh_or other none = other
refresh_or other (some r) = some r

abbrev pub reconciles_mmr : ReducerContext → Bool
reconciles_mmr ctx =
    ctx.config.enable_mmr_tracking
    || (ctx.config.custom_api_enabled && not (str_eq ctx.config.account_refresh_token ""))

-- What is asked for when the match is kept.
unfoldable pub request_save :
    CapturedMatch
    → ℤ
    → MatchEndDecision
    → MatchFinalizeSource
    → Bool
    → ReducerContext
    → SideEffects
    → SideEffects
request_save m winner_team decision source enqueue_mmr_refresh ctx effects =
    let refresh = local_refresh m decision.i_won source enqueue_mmr_refresh in
    record effects {
      fetch_encounter_queue = effects.fetch_encounter_queue ++ encounters m.my_primary_id m.roster;
      post_match_mmr_refresh = refresh_or effects.post_match_mmr_refresh refresh;
      fetch_mmr_queue =
          if enqueue_mmr_refresh
          then effects.fetch_mmr_queue ++ team_queue m (is_some refresh) m.roster
          else effects.fetch_mmr_queue;
      save = some (record (build_match_save_snapshot m winner_team decision) {
        roster = m.roster;
        local_mmr_needs_reconciliation = is_some refresh && reconciles_mmr ctx;
      });
    }

abbrev pub show_if_current :
    Bool
    → CapturedMatch
    → ℤ
    → MatchEndDecision
    → ReducerContext
    → MatchState × SideEffects
    → MatchState × SideEffects
show_if_current true m winner_team decision ctx r = show_result m winner_team decision ctx r
show_if_current false m winner_team decision ctx r = r

abbrev pub save_counted :
    CapturedMatch
    → ℤ
    → MatchEndDecision
    → MatchFinalizeSource
    → Bool
    → ReducerContext
    → MatchState × SideEffects
    → MatchState × SideEffects
save_counted m winner_team decision source enqueue_mmr_refresh ctx (state, effects) =
    (state, request_save m winner_team decision source enqueue_mmr_refresh ctx effects)

-- By whether the match is to be kept.
abbrev pub keep_match :
    Bool
    → Bool
    → CapturedMatch
    → ℤ
    → MatchEndDecision
    → MatchFinalizeSource
    → Bool
    → ReducerContext
    → MatchState × SideEffects
    → MatchState × SideEffects
keep_match false is_current m winner_team decision source enqueue_mmr_refresh ctx r =
    leave_match is_current r
keep_match true is_current m winner_team decision source enqueue_mmr_refresh ctx r =
    leave_match is_current (
      save_counted m winner_team decision source enqueue_mmr_refresh ctx
        (count_match m decision.i_won r))

-- From the decision on, for a match that was not finalized before.
unfoldable pub conclude :
    Bool
    → CapturedMatch
    → ℤ
    → MatchEndDecision
    → MatchFinalizeSource
    → Bool
    → ReducerContext
    → MatchState × SideEffects
    → MatchState × SideEffects
conclude is_current m winner_team decision source enqueue_mmr_refresh ctx r =
    keep_match decision.should_persist is_current m winner_team decision source enqueue_mmr_refresh
      ctx (show_if_current is_current m winner_team decision ctx r)

unfoldable pub finalize_captured_match :
    CapturedMatch
    → ℤ
    → MatchFinalizeSource
    → Bool
    → ReducerContext
    → MatchState × SideEffects
    → MatchState × SideEffects
finalize_captured_match m winner_team source enqueue_mmr_refresh ctx (state, effects) =
    let recorded = record_terminal_match_guid m.match_guid state in
    if not (str_eq m.match_guid "") && is_finalized_guid state m.match_guid
    then (state, effects)
    else conclude (is_current_match recorded m) m winner_team (classify_match_end m winner_team)
        source enqueue_mmr_refresh ctx (recorded, effects)

unfoldable pub finalize_match :
    ℤ → MatchFinalizeSource → ReducerContext → MatchState × SideEffects → MatchState × SideEffects
finalize_match winner_team source ctx (state, effects) =
    if state.match_finalized
      || (not (str_eq state.match_guid "") && is_finalized_guid state state.match_guid)
    then (state, effects)
    else finalize_captured_match (capture_match ctx.system_now_ms state) winner_team source true ctx
        (state, effects)

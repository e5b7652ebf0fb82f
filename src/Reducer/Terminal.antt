-- ===== src/Reducer/Terminal.antt =====
-- `HandleMatchEnded` and `ConfirmPendingDestroyedMatch` of
-- src/core/reducer/TelemetryReducerFinalize.cpp, and `HasExplicitLocalForfeitSignal` of
-- src/network/telemetry/TelemetryEvents.cpp.
use omni_stats.Prelude.{
  String, Bool, false, ◌&&◌, ◌||◌, not, List, [], ◌∷◌, Option, none, some, str_eq, if◌then◌else◌,
  is_empty,
}
use omni_stats.Prelude.Int.{ℤ, pos, negsuc, ◌-ℤ◌, eqb_ℤ}
use omni_stats.Prelude.Maps.{lookup, erase}
use omni_stats.Matches.{MatchState, CapturedMatch, is_team}
use omni_stats.Reducer.Types.{
  ReducerContext, SideEffects, no_effects, MatchFinalizeSource, ForfeitScope, MatchEndedEvent,
}
use omni_stats.Reducer.Effects.{event_now_ms, publish_ui_timestamps}
use omni_stats.Reducer.Guids.{is_finalized_guid, attach_terminal_guid_to_current}
use omni_stats.Reducer.Finalize.{finalize_captured_match, finalize_match}

-- The team of a scope, where there is one.
abbrev pub valid_team : Option ℤ → Option ℤ
valid_team none = none
valid_team (some team) = if is_team team then some team else none

-- Whether the winner of a scope tells that the local team gave up.
abbrev pub lost_to : Option ℤ → ℤ → Bool
lost_to none local_team = false
lost_to (some winner) local_team = is_team local_team && not (eqb_ℤ winner local_team)

abbrev pub gave_up : Option ℤ → Option ℤ → ℤ → Bool
gave_up (some team) winner local_team = eqb_ℤ team local_team
gave_up none winner local_team = lost_to winner local_team

unfoldable pub has_explicit_local_forfeit_signal : List ForfeitScope → ℤ → Bool
has_explicit_local_forfeit_signal [] local_team = false
has_explicit_local_forfeit_signal (scope ∷ scopes) local_team =
    scope.local_flag
    || (scope.forfeit
        && gave_up (valid_team scope.forfeit_team) (valid_team scope.winner_team) local_team)
    || has_explicit_local_forfeit_signal scopes local_team

abbrev pub score_or : ℤ × ℤ → Option (ℤ × ℤ) → ℤ × ℤ
score_or score none = score
score_or score (some s) = s

abbrev pub finalize_source : Bool → MatchFinalizeSource → MatchFinalizeSource
finalize_source local_forfeit other =
    if local_forfeit then MatchFinalizeSource.local_forfeit else other

-- The match was destroyed before it ended: `match.score` and its winner come with the event.
abbrev pub resolve_pending :
    MatchEndedEvent
    → ReducerContext
    → CapturedMatch
    → MatchState × SideEffects
    → MatchState × SideEffects
resolve_pending ev ctx pending (state, effects) =
    let m = record pending { score = score_or pending.score ev.team_scores } in
    let local_forfeit =
      has_explicit_local_forfeit_signal ev.forfeit_scopes m.my_team
      && not (eqb_ℤ ev.winner_team m.my_team) in
    let erased = record state {
      pending_destroyed_matches = erase ev.match_guid state.pending_destroyed_matches;
    } in
    let r =
      finalize_captured_match m ev.winner_team
        (finalize_source local_forfeit MatchFinalizeSource.match_ended) false ctx
        (erased, effects) in
    (
      r.0,
      record r.1 {
        resolved_destroyed_match =
            some (record { match_guid = m.match_guid; won = eqb_ℤ ev.winner_team m.my_team });
      },
    )

-- The end of the current match.
abbrev pub end_current :
    MatchEndedEvent → ReducerContext → MatchState × SideEffects → MatchState × SideEffects
end_current ev ctx (state, effects) =
    let ended = record state {
      in_goal_replay = false;
      last_match_end_ms = event_now_ms ctx;
      countdown_seen_this_round = false;
      round_active = false;
      score = score_or state.score ev.team_scores;
    } in
    let local_forfeit =
      has_explicit_local_forfeit_signal ev.forfeit_scopes ended.my_team
      && not (eqb_ℤ ev.winner_team ended.my_team) in
    finalize_match ev.winner_team (finalize_source local_forfeit MatchFinalizeSource.match_ended)
      ctx (ended, effects)

-- The event is about the current match, which is not over.
unfoldable pub ends_current : MatchState → String → Bool
ends_current state event_match_guid =
    state.in_match
    && not state.match_finalized
    && (if str_eq event_match_guid ""
        then is_empty state.pending_destroyed_matches
          && str_eq state.match_guid ""
          && not state.missing_guid_association_blocked_by_reconnect
        else str_eq event_match_guid state.match_guid)

-- An event without a guid finds no pending match.
abbrev pub find_pending : MatchState → String → Option CapturedMatch
find_pending state guid =
    if str_eq guid "" then none else lookup guid state.pending_destroyed_matches

abbrev pub end_found :
    Option CapturedMatch
    → MatchEndedEvent
    → ReducerContext
    → MatchState × SideEffects
    → MatchState × SideEffects
end_found (some pending) ev ctx r =
    if is_team ev.winner_team then resolve_pending ev ctx pending r else r
end_found none ev ctx (state, effects) =
    let attached = attach_terminal_guid_to_current ev.match_guid state in
    if ends_current attached ev.match_guid
    then end_current ev ctx (attached, effects)
    else (attached, effects)

unfoldable pub handle_match_ended :
    MatchEndedEvent → ReducerContext → MatchState × SideEffects → MatchState × SideEffects
handle_match_ended ev ctx (state, effects) =
    end_found (find_pending state ev.match_guid) ev ctx (state, effects)

-- The team that won, as the tracker tells whether the local player did.
abbrev pub confirmed_winner : CapturedMatch → Bool → ℤ
confirmed_winner m won =
    if is_team m.my_team then (if won then m.my_team else pos 1 -ℤ m.my_team) else negsuc 0

abbrev pub confirm_found :
    Option CapturedMatch → String → Bool → ReducerContext → MatchState → MatchState × SideEffects
confirm_found none match_guid won ctx state = (state, no_effects)
confirm_found (some m) match_guid won ctx state =
    if is_finalized_guid state match_guid
    then (state, no_effects)
    else publish_ui_timestamps (
        finalize_captured_match m (confirmed_winner m won)
          MatchFinalizeSource.tracker_confirmed_destroyed false ctx
          (
            record state {
              pending_destroyed_matches = erase match_guid state.pending_destroyed_matches;
            },
            no_effects,
          ))

unfoldable pub confirm_pending_destroyed_match :
    String → Bool → ReducerContext → MatchState → MatchState × SideEffects
confirm_pending_destroyed_match match_guid won ctx state =
    confirm_found (lookup match_guid state.pending_destroyed_matches) match_guid won ctx state

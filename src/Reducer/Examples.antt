-- ===== src/Reducer/Examples.antt =====
-- The lemmas on the reducer, at a game of ranked doubles.
use omni_stats.Prelude.{
  ◌+◌, ◌≤◌, ◌≡◌, refl, true, false, not, ◌&&◌, [], ◌∷◌, none, some, str_eq, count_if, is_some,
  if◌then◌else◌, arith,
}
use omni_stats.Prelude.Int.{pos, ◌-ℤ◌, eqb_ℤ}
use omni_stats.Prelude.Maps.{lookup}
use omni_stats.Prelude.Text.{codes}
use omni_stats.Playlists.{MmrCategory, is_tracked_competitive_mode, find, playlists}
use omni_stats.Matches.{
  MatchState, CapturedMatch, PlayerData, blank_player, new_match_state, capture_match,
  classify_match_end, is_valid_early_competitive_exit, infer_mode_from_match_state,
  is_tracked_ranked_early_exit_mode,
}
use omni_stats.Matches.Reset.{reset_timing}
use omni_stats.Matches.Refresh.{build_post_match_mmr_refresh, is_refused, previous_of}
use omni_stats.Reducer.Types.{
  ReducerContext, MatchEndedEvent, MatchDestroyedEvent, MatchFinalizeSource, no_effects,
}
use omni_stats.Reducer.Effects.{push_discord, publish_ui_timestamps}
use omni_stats.Reducer.Guids.{attach_terminal_guid_to_current, is_finalized_guid}
use omni_stats.Reducer.Finalize.{finalize_captured_match}
use omni_stats.Reducer.Terminal.{
  has_explicit_local_forfeit_signal, handle_match_ended, confirm_pending_destroyed_match,
}
use omni_stats.Reducer.Destroyed.{handle_match_destroyed, settle, is_for_other_match}
use omni_stats.Reducer.Events.{TelemetryEvent, reduce, visit}
use omni_stats.Reducer.Once.{finalized}
use omni_stats.Reducer.Waiting.{Waiting}
use omni_stats.Reducer.Runs.{
  Run, Step, and_then, is_save_of, saved_once, Run-Waiting, new_match_state-Waiting,
}
use omni_stats.Reducer.Confirm.{IsSaved, pending-IsSaved}
use omni_stats.Reducer.Counts.{
  results, results_with, is_in_session, finalize_captured_match-results,
}
use omni_stats.Reducer.Stale.{
  IsStale, handle_match_ended-IsStale, confirm_pending_destroyed_match_idem,
}
use omni_stats.Reducer.Stats.{
  PlayerRef, StatfeedEvent, GoalScoredEvent, handle_statfeed, count_goal, handle_crossbar_hit,
  is_self_target, is_self_by_id, is_self, resolve_roster_player_id,
}
use omni_stats.Reducer.Counted.{IsWithin, counted-IsWithin}

abbrev me : PlayerData
me = record blank_player {
  name = "Me";
  team = pos 1;
  mmr = pos 900;
  playlists = ("2v2", pos 940) ∷ [];
}

-- In the second minute.
abbrev doubles : MatchState
doubles = record new_match_state {
  in_match = true;
  my_team = pos 1;
  my_primary_id = "Steam|1|0";
  match_guid = "GUID";
  arena_name = codes "Stadium";
  playlist_id = pos 11;
  active_match_generation = 4;
  session_generation = 1;
  score = (pos 2, pos 1);
  round_ever_started = true;
  local_player_was_active = true;
  local_player_presence_observed = true;
  local_player_present_in_latest_update = true;
  roster = ("Steam|1|0", me) ∷ [];
  auto_switched_playlist_category = MmrCategory.two_v_two;
}

abbrev ctx : ReducerContext
ctx = record {
  now_ms = pos 5000;
  now_unix = pos 1700000000;
  config = record {
    reset_session_on_close = true;
    enable_mmr_tracking = true;
    custom_api_enabled = false;
    account_refresh_token = "";
  };
  steady_now_ms = pos 5000;
  system_now_ms = pos 1700000000000;
}

abbrev ended : MatchEndedEvent
ended = record {
  match_guid = "GUID";
  winner_team = pos 1;
  team_scores = some (pos 2, pos 3);
  forfeit_scopes = [];
}

abbrev destroyed : MatchDestroyedEvent
destroyed = record {
  match_guid = "GUID";
  team_scores = none;
  forfeit_scopes = [];
  winner_team = none;
}

abbrev end : TelemetryEvent
end = TelemetryEvent.match_ended_event ended

abbrev leave : TelemetryEvent
leave = TelemetryEvent.match_destroyed_event destroyed

abbrev over : MatchState
over = (reduce end ctx doubles).0

abbrev away : MatchState
away = (reduce leave ctx doubles).0

-- The event comes twice.
ends_twice :
    Run doubles
      (and_then (reduce end ctx doubles).1.save (and_then (reduce end ctx over).1.save []))
      (reduce end ctx over).0
ends_twice = Run.next doubles over _ _ _ (Step.reduced end ctx doubles) (
    Run.next over (reduce end ctx over).0 _ _ _ (Step.reduced end ctx over)
      (Run.here (reduce end ctx over).0))

saved_once_example :
    count_if
        (is_save_of "GUID")
        (and_then (reduce end ctx doubles).1.save (and_then (reduce end ctx over).1.save []))
      + finalized "GUID" doubles
    ≤ finalized "GUID" (reduce end ctx over).0
saved_once_example = saved_once "GUID" refl ends_twice

leaves : Run new_match_state (and_then none (and_then (reduce leave ctx doubles).1.save [])) away
leaves =
    Run.next new_match_state doubles away none _ (Step.other new_match_state doubles refl)
      (Run.next doubles away away _ [] (Step.reduced leave ctx doubles) (Run.here away))

Run-Waiting_example : Waiting away
Run-Waiting_example = Run-Waiting leaves new_match_state-Waiting

-- What waits for the tracker.
abbrev left : CapturedMatch
left = capture_match (pos 1700000000000) doubles

is_left : lookup "GUID" away.pending_destroyed_matches ≡ some left
unfolding reduce visit handle_match_destroyed attach_terminal_guid_to_current is_for_other_match
    has_explicit_local_forfeit_signal settle reset_timing is_valid_early_competitive_exit
    infer_mode_from_match_state is_tracked_ranked_early_exit_mode find playlists capture_match
    build_post_match_mmr_refresh is_refused previous_of is_tracked_competitive_mode push_discord
    publish_ui_timestamps
is_left = refl

is_open : is_finalized_guid away "GUID" ≡ false
unfolding reduce visit handle_match_destroyed attach_terminal_guid_to_current is_for_other_match
    has_explicit_local_forfeit_signal settle reset_timing is_valid_early_competitive_exit
    infer_mode_from_match_state is_tracked_ranked_early_exit_mode find playlists capture_match
    build_post_match_mmr_refresh is_refused previous_of is_tracked_competitive_mode push_discord
    publish_ui_timestamps
is_open = refl

pending-IsSaved_example :
    let r = confirm_pending_destroyed_match "GUID" true ctx away in
    (left.match_guid ≡ "GUID")
    × IsSaved left (if true then left.my_team else pos 1 -ℤ left.my_team) r.1.save
    × (lookup "GUID" r.0.pending_destroyed_matches ≡ none)
pending-IsSaved_example = pending-IsSaved "GUID" left true ctx leaves is_left is_open

finalize_captured_match-results_example :
    let source = MatchFinalizeSource.match_ended in
    let r = finalize_captured_match left (pos 1) source true ctx (doubles, no_effects) in
    (is_some r.1.save ≡ (
      not (not (str_eq left.match_guid "") && is_finalized_guid doubles left.match_guid)
      && (classify_match_end left (pos 1)).should_persist))
    × (results r.0
        ≡ results_with
            (is_some r.1.save && is_in_session left doubles)
            (eqb_ℤ (pos 1) left.my_team)
            doubles)
finalize_captured_match-results_example =
    finalize_captured_match-results left (pos 1) MatchFinalizeSource.match_ended true ctx doubles
      no_effects refl

-- The guid was finalized in this state.
abbrev known : MatchState
known = record doubles { finalized_match_guids = "GUID" ∷ [] }

known-Waiting : Waiting known
unfolding Waiting
known-Waiting = tt

handle_match_ended-IsStale_example :
    IsStale known (handle_match_ended ended ctx (known, no_effects))
handle_match_ended-IsStale_example =
    handle_match_ended-IsStale ended ctx known refl refl known-Waiting

confirm_pending_destroyed_match_idem_example :
    let after = (confirm_pending_destroyed_match "GUID" true ctx away).0 in
    confirm_pending_destroyed_match "GUID" false ctx after ≡ (after, no_effects)
confirm_pending_destroyed_match_idem_example =
    confirm_pending_destroyed_match_idem "GUID" true false ctx ctx away

abbrev myself : PlayerRef
myself = record { name = "Me"; primary_id = ""; team = pos 1 }

abbrev save_feed : StatfeedEvent
save_feed = record {
  event_name = "EpicSave";
  main_target = myself;
  secondary_target = none;
  match_guid = "GUID";
}

abbrev goal : GoalScoredEvent
goal = record { match_guid = "GUID"; scorer = myself; is_echo = false }

counts_my_save :
    ((handle_statfeed save_feed doubles).current_match.saves ≡ pos 1)
    × ((handle_statfeed save_feed doubles).current_match.saves_self ≡ pos 1)
unfolding handle_statfeed is_self_target is_self_by_id is_self resolve_roster_player_id
    omni_stats.Prelude.Int.◌+ℤ◌
counts_my_save = (refl, refl)

counted-IsWithin_example :
    IsWithin (handle_statfeed save_feed doubles).current_match
    × IsWithin (count_goal goal (doubles, no_effects)).0.current_match
    × IsWithin (handle_crossbar_hit myself doubles).current_match
counted-IsWithin_example = counted-IsWithin save_feed goal myself doubles no_effects (
  omega arith,
  omega arith,
  omega arith,
  omega arith,
  omega arith,
  omega arith,
  omega arith,
  omega arith,
)

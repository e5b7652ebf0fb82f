-- ===== src/Reducer/Events.antt =====
-- `ReduceInPlace` of src/core/reducer/TelemetryReducer.cpp: how each event changes the state.
--
-- The handler of `UpdateStateEvent` is not modelled, and the event has no constructor here. The
-- analytics of the match are not part of the state, so `BoostPickupEvent` and `PlayerLeftEvent` change
-- nothing, and neither does `BallHitEvent`, which writes only speeds.
use omni_stats.Prelude.{
  String, Bool, true, false, ◌&&◌, ◌||◌, not, [], ◌∷◌, ◌++◌, Option, none, some, str_eq,
  if◌then◌else◌,
}
use omni_stats.Prelude.Int.{ℤ, pos, leb_ℤ}
use omni_stats.Matches.{MatchState}
use omni_stats.Reducer.Types.{
  ReducerContext, SideEffects, no_effects, no_update, MatchEndedEvent, MatchDestroyedEvent,
}
use omni_stats.Reducer.Effects.{event_now_ms, publish_ui_timestamps}
use omni_stats.Reducer.Guids.{
  accepts_ui_match_event, targets_current_active_match_ui, is_pending, is_other_match,
  is_other_ui_match,
}
use omni_stats.Reducer.Terminal.{handle_match_ended}
use omni_stats.Reducer.Destroyed.{handle_match_destroyed}
use omni_stats.Reducer.Stats.{
  PlayerRef, StatfeedEvent, GoalScoredEvent, handle_statfeed, handle_goal_scored,
  handle_crossbar_hit,
}
use omni_stats.Reducer.Created.{ask_ui, match_created}

unfoldable pub replay_created : MatchState × SideEffects → MatchState × SideEffects
replay_created (state, effects) = (
  record state { non_live_replay_active = true; in_replay = true; in_goal_replay = false },
  ask_ui (record no_update { in_goal_replay = some false }) effects,
)

-- What an event does when the overlay takes it, and else nothing but what the test changed.
abbrev pub if_accepted :
    Bool × MatchState × SideEffects
    → (MatchState × SideEffects → MatchState × SideEffects)
    → MatchState × SideEffects
if_accepted (true, state, effects) f = f (state, effects)
if_accepted (false, state, effects) f = (state, effects)

abbrev pub or_now : ℤ → ℤ → ℤ
or_now now_ms t = if leb_ℤ t (pos 0) then now_ms else t

abbrev pub now_if_unset : ℤ → ℤ → Option ℤ
now_if_unset now_ms t = if leb_ℤ t (pos 0) then some now_ms else none

abbrev pub show_initialized : ℤ → MatchState × SideEffects → MatchState × SideEffects
show_initialized now_ms (state, effects) = (
  record state {
    last_match_start_ms = or_now now_ms state.last_match_start_ms;
    first_countdown_of_match_ms = or_now now_ms state.first_countdown_of_match_ms;
    last_countdown_ms = or_now now_ms state.last_countdown_ms;
    in_goal_replay = false;
    countdown_seen_this_round = true;
  },
  ask_ui
      (record no_update {
        last_match_start_ms = now_if_unset now_ms state.last_match_start_ms;
        first_countdown_of_match_ms = now_if_unset now_ms state.first_countdown_of_match_ms;
        last_countdown_ms = now_if_unset now_ms state.last_countdown_ms;
        in_goal_replay = some false;
      })
      effects,
)

unfoldable pub match_initialized :
    String → ReducerContext → MatchState × SideEffects → MatchState × SideEffects
match_initialized guid ctx (state, effects) =
    if_accepted (accepts_ui_match_event state guid (event_now_ms ctx) effects)
      (show_initialized (event_now_ms ctx))

abbrev pub show_countdown : ℤ → MatchState × SideEffects → MatchState × SideEffects
show_countdown now_ms (state, effects) = (
  record state {
    last_match_start_ms = or_now now_ms state.last_match_start_ms;
    first_countdown_of_match_ms = or_now now_ms state.first_countdown_of_match_ms;
    last_countdown_ms = now_ms;
    in_goal_replay = false;
    countdown_seen_this_round = true;
    round_active = false;
    last_player_boost = [];
  },
  effects,
)

unfoldable pub countdown_begin :
    String → ReducerContext → MatchState × SideEffects → MatchState × SideEffects
countdown_begin guid ctx (state, effects) =
    if_accepted (accepts_ui_match_event state guid (event_now_ms ctx) effects)
      (show_countdown (event_now_ms ctx))

abbrev pub show_round : ℤ → MatchState × SideEffects → MatchState × SideEffects
show_round now_ms (state, effects) = (
  record state {
    last_match_start_ms = or_now now_ms state.last_match_start_ms;
    first_countdown_of_match_ms = or_now now_ms state.first_countdown_of_match_ms;
    last_countdown_ms = if state.countdown_seen_this_round then state.last_countdown_ms else now_ms;
    in_goal_replay = false;
    countdown_seen_this_round = false;
  },
  effects,
)

-- The part of `RoundStartedEvent` that does not ask whether the overlay takes it.
abbrev pub begin_round : MatchState × SideEffects → MatchState × SideEffects
begin_round (state, effects) = (
  record state {
    last_player_boost = if state.round_active then state.last_player_boost else [];
    boost_respawn_pending = if state.round_active then state.boost_respawn_pending else [];
    round_active = true;
    round_ever_started = true;
  },
  effects,
)

unfoldable pub round_started :
    String → ReducerContext → MatchState × SideEffects → MatchState × SideEffects
round_started guid ctx (state, effects) = begin_round (
    if_accepted (accepts_ui_match_event state guid (event_now_ms ctx) effects)
      (show_round (event_now_ms ctx)))

unfoldable pub match_paused : ReducerContext → MatchState × SideEffects → MatchState × SideEffects
match_paused ctx (state, effects) = elim state.current_pause_start_ms [
  | none ↦ (record state { current_pause_start_ms = some (event_now_ms ctx) }, effects)
  | some start ↦ (state, effects)
]

unfoldable pub match_unpaused : ReducerContext → MatchState × SideEffects → MatchState × SideEffects
match_unpaused ctx (state, effects) = elim state.current_pause_start_ms [
  | none ↦ (state, effects)
  | some start ↦ (
    record state {
      pause_intervals = state.pause_intervals ++ (start, event_now_ms ctx) ∷ [];
      current_pause_start_ms = none;
    },
    effects,
  )
]

abbrev pub if_current : Bool × MatchState → (MatchState → MatchState) → MatchState
if_current (true, state) f = f state
if_current (false, state) f = state

abbrev pub show_goal_replay : MatchState → MatchState
show_goal_replay state = record state { in_goal_replay = true }

unfoldable pub goal_replay_start : String → MatchState × SideEffects → MatchState × SideEffects
goal_replay_start guid (state, effects) =
    (if_current (targets_current_active_match_ui state guid) show_goal_replay, effects)

unfoldable pub goal_replay_end : String → MatchState × SideEffects → MatchState × SideEffects
goal_replay_end guid (state, effects) =
    if not (str_eq guid "")
      && (is_other_match state guid || is_other_ui_match state guid || is_pending state guid)
    then (state, effects)
    else (record state { in_goal_replay = false }, effects)

abbrev pub show_podium : ℤ → MatchState → MatchState
show_podium now_ms state = record state {
  in_goal_replay = false;
  last_podium_ms = or_now now_ms state.last_podium_ms;
  match_summary_start_ms =
      if leb_ℤ state.last_podium_ms (pos 0) && (state.show_match_summary || state.match_finalized)
      then now_ms
      else state.match_summary_start_ms;
}

unfoldable pub podium_start :
    String → ReducerContext → MatchState × SideEffects → MatchState × SideEffects
podium_start guid ctx (state, effects) = (
  if_current (targets_current_active_match_ui state guid) (show_podium (event_now_ms ctx)),
  effects,
)

-- `TelemetryEvents::TelemetryEvent`, without `UpdateStateEvent`.
pub data TelemetryEvent : Type 0 where
  replay_created_event match_paused_event match_unpaused_event : TelemetryEvent
  goal_replay_will_end_event boost_pickup_event player_left_event ball_hit_event : TelemetryEvent
  statfeed_event : StatfeedEvent → TelemetryEvent
  goal_scored_event : GoalScoredEvent → TelemetryEvent
  crossbar_hit_event : PlayerRef → TelemetryEvent
  match_created_event match_initialized_event countdown_begin_event : String → TelemetryEvent
  round_started_event goal_replay_start_event goal_replay_end_event : String → TelemetryEvent
  podium_start_event : String → TelemetryEvent
  match_ended_event : MatchEndedEvent → TelemetryEvent
  match_destroyed_event : MatchDestroyedEvent → TelemetryEvent

-- `std::visit`.
unfoldable pub visit :
    TelemetryEvent → ReducerContext → MatchState × SideEffects → MatchState × SideEffects
visit replay_created_event ctx r = replay_created r
visit match_paused_event ctx r = match_paused ctx r
visit match_unpaused_event ctx r = match_unpaused ctx r
visit goal_replay_will_end_event ctx r = r
visit boost_pickup_event ctx r = r
visit player_left_event ctx r = r
visit ball_hit_event ctx r = r
visit (statfeed_event ev) ctx (state, effects) = (handle_statfeed ev state, effects)
visit (goal_scored_event ev) ctx r = handle_goal_scored ev ctx r
visit (crossbar_hit_event last_touch) ctx (state, effects) =
    (handle_crossbar_hit last_touch state, effects)
visit (match_created_event guid) ctx r = match_created guid ctx r
visit (match_initialized_event guid) ctx r = match_initialized guid ctx r
visit (countdown_begin_event guid) ctx r = countdown_begin guid ctx r
visit (round_started_event guid) ctx r = round_started guid ctx r
visit (goal_replay_start_event guid) ctx r = goal_replay_start guid r
visit (goal_replay_end_event guid) ctx r = goal_replay_end guid r
visit (podium_start_event guid) ctx r = podium_start guid ctx r
visit (match_ended_event ev) ctx r = handle_match_ended ev ctx r
visit (match_destroyed_event ev) ctx r = handle_match_destroyed ev ctx r

unfoldable pub reduce : TelemetryEvent → ReducerContext → MatchState → MatchState × SideEffects
reduce event ctx state =
    publish_ui_timestamps
      (visit event ctx (record state { current_reducer_now_ms = event_now_ms ctx }, no_effects))

-- ===== src/Reducer/Visits.antt =====
-- Each event of `ReduceInPlace` of src/core/reducer/TelemetryReducer.cpp is handled by one of the
-- terminal handlers, or keeps what Reducer/Frame names.
use omni_stats.Prelude.{◌≡◌, refl, ◌⊎◌, inl, inr}
use omni_stats.Matches.{MatchState}
use omni_stats.Reducer.Types.{SideEffects, ReducerContext, MatchEndedEvent, MatchDestroyedEvent}
use omni_stats.Reducer.Terminal.{handle_match_ended}
use omni_stats.Reducer.Destroyed.{handle_match_destroyed}
use omni_stats.Reducer.Events.{TelemetryEvent, visit}
use omni_stats.Reducer.Frame.{
  kept_all, kept-replay_created, kept-match_created, kept-match_initialized, kept-countdown_begin,
  kept-round_started, kept-pauses, kept-goal_replay_start, kept-goal_replay_end, kept-podium_start,
}
use omni_stats.Reducer.Counted.{
  kept-handle_statfeed, kept-handle_goal_scored, kept-handle_crossbar_hit,
}

abbrev pub Visited : ReducerContext → MatchState × SideEffects → MatchState × SideEffects → Type 0
Visited ctx r r' =
    (kept_all r' ≡ kept_all r)
    ⊎ (((ev : MatchEndedEvent) × (r' ≡ handle_match_ended ev ctx r))
        ⊎ ((ev : MatchDestroyedEvent) × (r' ≡ handle_match_destroyed ev ctx r)))

pub visit-Visited :
    (event : TelemetryEvent) (ctx : ReducerContext) (r : MatchState × SideEffects)
    → Visited ctx r (visit event ctx r)
unfolding visit
visit-Visited TelemetryEvent.replay_created_event ctx r = inl (kept-replay_created r)
visit-Visited TelemetryEvent.match_paused_event ctx r = inl (kept-pauses ctx r).0
visit-Visited TelemetryEvent.match_unpaused_event ctx r = inl (kept-pauses ctx r).1
visit-Visited TelemetryEvent.goal_replay_will_end_event ctx r = inl refl
visit-Visited TelemetryEvent.boost_pickup_event ctx r = inl refl
visit-Visited TelemetryEvent.player_left_event ctx r = inl refl
visit-Visited TelemetryEvent.ball_hit_event ctx r = inl refl
visit-Visited (TelemetryEvent.statfeed_event ev) ctx (state, effects) =
    inl (kept-handle_statfeed ev state effects)
visit-Visited (TelemetryEvent.goal_scored_event ev) ctx r = inl (kept-handle_goal_scored ev ctx r)
visit-Visited (TelemetryEvent.crossbar_hit_event last_touch) ctx (state, effects) =
    inl (kept-handle_crossbar_hit last_touch state effects)
visit-Visited (TelemetryEvent.match_created_event g) ctx r = inl (kept-match_created g ctx r)
visit-Visited (TelemetryEvent.match_initialized_event g) ctx r =
    inl (kept-match_initialized g ctx r)
visit-Visited (TelemetryEvent.countdown_begin_event g) ctx r = inl (kept-countdown_begin g ctx r)
visit-Visited (TelemetryEvent.round_started_event g) ctx r = inl (kept-round_started g ctx r)
visit-Visited (TelemetryEvent.goal_replay_start_event g) ctx r = inl (kept-goal_replay_start g r)
visit-Visited (TelemetryEvent.goal_replay_end_event g) ctx r = inl (kept-goal_replay_end g r)
visit-Visited (TelemetryEvent.podium_start_event g) ctx r = inl (kept-podium_start g ctx r)
visit-Visited (TelemetryEvent.match_ended_event ev) ctx r = inr (inl (ev, refl))
visit-Visited (TelemetryEvent.match_destroyed_event ev) ctx r = inr (inr (ev, refl))

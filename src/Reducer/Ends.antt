-- ===== src/Reducer/Ends.antt =====
-- `Reducer.Once` for the handlers of src/core/reducer, up to `ReduceInPlace`.
use omni_stats.Prelude.{
  ◌≤◌, ◌≡◌, ap, String, Bool, true, false, not, ◌&&◌, List, Option, none, some, arith, inl, inr,
  str_eq,
}
use omni_stats.Prelude.Int.{ℤ, pos, ◌-ℤ◌, eqb_ℤ}
use omni_stats.Prelude.Maps.{lookup, member-insert_key}
use omni_stats.Matches.{
  MatchState, CapturedMatch, capture_match, is_team, is_valid_early_competitive_exit,
}
use omni_stats.Matches.Reset.{reset_timing}
use omni_stats.Matches.Refresh.{PostMatchMmrRefresh, build_post_match_mmr_refresh}
use omni_stats.Reducer.Types.{
  SideEffects, no_effects, ReducerContext, MatchFinalizeSource, MatchEndedEvent,
  MatchDestroyedEvent,
}
use omni_stats.Reducer.Effects.{push_discord, publish_ui_timestamps}
use omni_stats.Reducer.Guids.{
  is_finalized_guid, record_terminal_match_guid, attach_terminal_guid_to_current,
}
use omni_stats.Reducer.Finalize.{finalize_captured_match}
use omni_stats.Reducer.Terminal.{
  end_found, find_pending, ends_current, resolve_pending, end_current, handle_match_ended,
  confirm_found, confirm_pending_destroyed_match, finalize_source,
}
use omni_stats.Reducer.Destroyed.{
  mark_destroyed_match_void, leave_early, keep_or_void, settle, handle_match_destroyed, leave_arena,
  clear_ui, note_destroyed, winner_or_none, is_for_other_match,
}
use omni_stats.Reducer.Events.{TelemetryEvent, visit, reduce}
use omni_stats.Reducer.Frame.{kept-attach_terminal}
use omni_stats.Reducer.Visits.{visit-Visited}
use omni_stats.Reducer.Once.{Once, if-Once, Once-refl, Once-trans, Once-Kept, finalized}
use omni_stats.Reducer.Finalized.{finalize_captured_match-Once, finalize_match-Once}

attach_terminal-Once :
    (event_guid guid : String) (state : MatchState) (effects : SideEffects)
    → Once guid (state, effects) (attach_terminal_guid_to_current event_guid state, effects)
unfolding Once
attach_terminal-Once event_guid guid state effects =
    let e = ap (λ k. k.0) (kept-attach_terminal event_guid state) in rw e (omega arith)

module _ (guid : String) (n : str_eq guid "" ≡ false) where
  resolve_pending-Once :
      (ev : MatchEndedEvent) (ctx : ReducerContext) (m : CapturedMatch)
      (r : MatchState × SideEffects)
      → Once guid r (resolve_pending ev ctx m r)
  unfolding Once
  resolve_pending-Once ev ctx m (state, effects) =
      finalize_captured_match-Once _ _ _ _ _ (_, effects) guid n

  end_current-Once :
      (ev : MatchEndedEvent) (ctx : ReducerContext) (r : MatchState × SideEffects)
      → Once guid r (end_current ev ctx r)
  unfolding Once
  end_current-Once ev ctx (state, effects) = finalize_match-Once _ _ _ (_, effects) guid n

  end_found-Once :
      (o : Option CapturedMatch) (ev : MatchEndedEvent) (ctx : ReducerContext)
      (r : MatchState × SideEffects)
      → Once guid r (end_found o ev ctx r)
  end_found-Once (some m) ev ctx r =
      if-Once guid (is_team ev.winner_team) r _ _ (resolve_pending-Once ev ctx m r)
        (Once-refl guid r)
  end_found-Once none ev ctx (state, effects) =
      let attached = attach_terminal_guid_to_current ev.match_guid state in
      let first = attach_terminal-Once ev.match_guid guid state effects in
      if-Once guid (ends_current attached ev.match_guid) (state, effects) _ _
        (Once-trans guid (state, effects) (attached, effects) _ first
          (end_current-Once ev ctx (attached, effects)))
        first

  pub handle_match_ended-Once :
      (ev : MatchEndedEvent) (ctx : ReducerContext) (r : MatchState × SideEffects)
      → Once guid r (handle_match_ended ev ctx r)
  unfolding handle_match_ended
  handle_match_ended-Once ev ctx (state, effects) =
      end_found-Once (find_pending state ev.match_guid) ev ctx (state, effects)

  record_terminal_grows :
      (m : String) (state : MatchState)
      → finalized guid state ≤ finalized guid (record_terminal_match_guid m state)
  unfolding record_terminal_match_guid
  record_terminal_grows m state =
      ground (arith, member-insert_key m guid state.finalized_match_guids)

  mark_destroyed_match_void-Once :
      (reason : String) (r : MatchState × SideEffects)
      → Once guid r (mark_destroyed_match_void reason r)
  unfolding Once mark_destroyed_match_void push_discord
  mark_destroyed_match_void-Once reason (state, effects) =
      let grows = record_terminal_grows state.match_guid state in omega (arith, grows)

  keep_or_void-Once :
      (m : CapturedMatch) (o : Option PostMatchMmrRefresh) (ctx : ReducerContext)
      (r : MatchState × SideEffects)
      → Once guid r (keep_or_void m o ctx r)
  unfolding Once
  keep_or_void-Once m none ctx r = mark_destroyed_match_void-Once "missing_local_tracker_identity" r
  keep_or_void-Once m (some refresh) ctx (state, effects) = omega arith

  leave_early-Once :
      (exit : Bool × String × String) (ctx : ReducerContext) (r : MatchState × SideEffects)
      → Once guid r (leave_early exit ctx r)
  leave_early-Once (false, mode, reason) ctx r = mark_destroyed_match_void-Once reason r
  leave_early-Once (true, mode, reason) ctx (state, effects) =
      let m : CapturedMatch = record (capture_match ctx.system_now_ms state) { mode = mode } in
      if-Once guid state.explicit_local_forfeit (state, effects) _ _
        (finalize_match-Once (pos 1 -ℤ state.my_team) MatchFinalizeSource.local_forfeit ctx
          (state, effects) guid n)
        (keep_or_void-Once m (build_post_match_mmr_refresh m false) ctx (state, effects))

  settle-Once :
      (winner : ℤ) (ctx : ReducerContext) (r : MatchState × SideEffects)
      → Once guid r (settle winner ctx r)
  unfolding settle
  settle-Once winner ctx (state, effects) =
      if-Once guid state.match_finalized (state, effects) _ _ (Once-refl guid (state, effects))
        (if-Once guid (is_team winner) (state, effects) _ _
          (finalize_match-Once winner
            (finalize_source (state.explicit_local_forfeit && not (eqb_ℤ winner state.my_team))
              MatchFinalizeSource.match_destroyed)
            ctx (state, effects) guid n)
          (leave_early-Once (is_valid_early_competitive_exit state "" "") ctx (state, effects)))

  leave_arena-Once : (r s : MatchState × SideEffects) → Once guid r s → Once guid r (leave_arena s)
  unfolding Once push_discord
  leave_arena-Once r (state, effects) h = h

  Once-noted :
      (ev : MatchDestroyedEvent) (attached state : MatchState) (effects : SideEffects)
      → Once guid (state, effects) (attached, effects)
      → Once guid (state, effects) (note_destroyed ev attached, effects)
  unfolding Once
  Once-noted ev attached state effects h = h

  Once-cleared :
      (ev : MatchDestroyedEvent) (attached state : MatchState) (effects : SideEffects)
      → Once guid (state, effects) (attached, effects)
      → Once guid (state, effects) (clear_ui (note_destroyed ev attached), effects)
  unfolding Once reset_timing
  Once-cleared ev attached state effects h = h

  pub handle_match_destroyed-Once :
      (ev : MatchDestroyedEvent) (ctx : ReducerContext) (r : MatchState × SideEffects)
      → Once guid r (handle_match_destroyed ev ctx r)
  unfolding handle_match_destroyed
  handle_match_destroyed-Once ev ctx (state, effects) =
      let attached = attach_terminal_guid_to_current ev.match_guid state in
      let noted = note_destroyed ev attached in
      let first = attach_terminal-Once ev.match_guid guid state effects in
      let settled = settle (winner_or_none ev.winner_team) ctx (clear_ui noted, effects) in
      let cleared = clear_ui noted in
      if-Once guid (is_for_other_match attached ev.match_guid) (state, effects) _ _ first
        (if-Once guid (not noted.in_match) (state, effects) _ _
          (Once-noted ev attached state effects first)
          (leave_arena-Once (state, effects) settled
            (Once-trans guid (state, effects) (cleared, effects) settled
              (Once-cleared ev attached state effects first)
              (settle-Once (winner_or_none ev.winner_team) ctx (cleared, effects)))))

  published-Once :
      (r s : MatchState × SideEffects) → Once guid r s → Once guid r (publish_ui_timestamps s)
  unfolding Once publish_ui_timestamps
  published-Once r (state, effects) h = h

  Once-confirmed :
      (m : CapturedMatch) (winner : ℤ) (source : MatchFinalizeSource) (ctx : ReducerContext)
      (state : MatchState) (pending : List (String × CapturedMatch))
      → Once guid
          (state, no_effects)
          (finalize_captured_match m winner source false ctx
            (record state { pending_destroyed_matches = pending }, no_effects))
  unfolding Once
  Once-confirmed m winner source ctx state pending =
      finalize_captured_match-Once m winner source false ctx
        (record state { pending_destroyed_matches = pending }, no_effects) guid n

  confirm_found-Once :
      (o : Option CapturedMatch) (match_guid : String) (won : Bool) (ctx : ReducerContext)
      (state : MatchState)
      → Once guid (state, no_effects) (confirm_found o match_guid won ctx state)
  confirm_found-Once none match_guid won ctx state = Once-refl guid (state, no_effects)
  confirm_found-Once (some m) match_guid won ctx state =
      if-Once guid (is_finalized_guid state match_guid) (state, no_effects) _ _
        (Once-refl guid (state, no_effects))
        (published-Once (state, no_effects) _ (Once-confirmed m _ _ ctx state _))

  pub confirm_pending_destroyed_match-Once :
      (match_guid : String) (won : Bool) (ctx : ReducerContext) (state : MatchState)
      → Once guid (state, no_effects) (confirm_pending_destroyed_match match_guid won ctx state)
  unfolding confirm_pending_destroyed_match
  confirm_pending_destroyed_match-Once match_guid won ctx state =
      confirm_found-Once (lookup match_guid state.pending_destroyed_matches) match_guid won ctx
        state

  visit-Once :
      (event : TelemetryEvent) (ctx : ReducerContext) (r : MatchState × SideEffects)
      → Once guid r (visit event ctx r)
  visit-Once event ctx r = elim (visit-Visited event ctx r) [
    | inl e ↦ Once-Kept guid r _ e
    | inr (inl (ev, e)) ↦ rw e (handle_match_ended-Once ev ctx r)
    | inr (inr (ev, e)) ↦ rw e (handle_match_destroyed-Once ev ctx r)
  ]

  Once-timed :
      (event : TelemetryEvent) (ctx : ReducerContext) (state : MatchState) (now_ms : ℤ)
      → Once guid
          (state, no_effects)
          (visit event ctx (record state { current_reducer_now_ms = now_ms }, no_effects))
  unfolding Once
  Once-timed event ctx state now_ms =
      visit-Once event ctx (record state { current_reducer_now_ms = now_ms }, no_effects)

  pub reduce-Once :
      (event : TelemetryEvent) (ctx : ReducerContext) (state : MatchState)
      → Once guid (state, no_effects) (reduce event ctx state)
  unfolding reduce
  reduce-Once event ctx state = published-Once (state, no_effects) _ (Once-timed event ctx state _)

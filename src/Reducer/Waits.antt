-- ===== src/Reducer/Waits.antt =====
-- `Reducer.Waiting` for the handlers of src/core/reducer, up to `ReduceInPlace`.
use omni_stats.Prelude.{◌≡◌, refl, ap, String, Bool, true, false, not, Option, none, some, inl, inr}
use omni_stats.Prelude.Int.{ℤ, pos, ◌-ℤ◌}
use omni_stats.Prelude.Maps.{lookup, erase}
use omni_stats.Matches.{
  MatchState, CapturedMatch, capture_match, is_team, is_valid_early_competitive_exit,
}
use omni_stats.Matches.Reset.{reset_timing}
use omni_stats.Matches.Refresh.{PostMatchMmrRefresh, build_post_match_mmr_refresh}
use omni_stats.Reducer.Types.{
  SideEffects, no_effects, ReducerContext, MatchFinalizeSource, MatchEndedEvent,
  MatchDestroyedEvent,
}
use omni_stats.Reducer.Effects.{publish_ui_timestamps}
use omni_stats.Reducer.Guids.{is_finalized_guid, attach_terminal_guid_to_current}
use omni_stats.Reducer.Finalize.{finalize_captured_match, finalize_match}
use omni_stats.Reducer.Terminal.{
  end_found, find_pending, ends_current, resolve_pending, end_current, handle_match_ended,
  confirm_found, confirm_pending_destroyed_match,
}
use omni_stats.Reducer.Destroyed.{
  mark_destroyed_match_void, leave_early, keep_or_void, settle, handle_match_destroyed, leave_arena,
  clear_ui, note_destroyed, winner_or_none, is_for_other_match,
}
use omni_stats.Reducer.Frame.{kept_all, kept-attach_terminal}
use omni_stats.Reducer.Finalized.{
  pending-record_terminal_match_guid, pending-finalize_captured_match, pending-finalize_match,
}
use omni_stats.Reducer.Events.{TelemetryEvent, visit, reduce}
use omni_stats.Reducer.Visits.{visit-Visited}
use omni_stats.Reducer.Waiting.{
  WaitsFor, Waiting, All-erase, All-emplace, Waiting-of_eq, if-Waiting, early_exit-WaitsFor,
}

Waiting-attach :
    (event_guid : String) (state : MatchState)
    → Waiting state
    → Waiting (attach_terminal_guid_to_current event_guid state)
Waiting-attach event_guid state =
    Waiting-of_eq _ state (ap (λ k. k.1) (kept-attach_terminal event_guid state))

Waiting-finalize :
    (winner : ℤ) (source : MatchFinalizeSource) (ctx : ReducerContext)
    (r : MatchState × SideEffects)
    → Waiting r.0
    → Waiting (finalize_match winner source ctx r).0
Waiting-finalize winner source ctx r =
    Waiting-of_eq _ r.0 (pending-finalize_match winner source ctx r)

Waiting-erased :
    (k : String) (state : MatchState)
    → Waiting state
    → Waiting (record state { pending_destroyed_matches = erase k state.pending_destroyed_matches })
unfolding Waiting
Waiting-erased k state h = All-erase k state.pending_destroyed_matches h

-- A pending match is taken out and finalized.
Waiting-taken :
    (k : String) (m : CapturedMatch) (winner : ℤ) (source : MatchFinalizeSource)
    (ctx : ReducerContext) (state : MatchState) (effects : SideEffects)
    → Waiting state
    → let erased = record state {
      pending_destroyed_matches = erase k state.pending_destroyed_matches;
    } in
      Waiting (finalize_captured_match m winner source false ctx (erased, effects)).0
Waiting-taken k m winner source ctx state effects h =
    let erased = record state {
      pending_destroyed_matches = erase k state.pending_destroyed_matches;
    } in
    Waiting-of_eq _ erased
      (pending-finalize_captured_match m winner source false ctx (erased, effects))
      (Waiting-erased k state h)

Waiting-end_found :
    (o : Option CapturedMatch) (ev : MatchEndedEvent) (ctx : ReducerContext)
    (r : MatchState × SideEffects)
    → Waiting r.0
    → Waiting (end_found o ev ctx r).0
Waiting-end_found (some m) ev ctx (state, effects) h =
    if-Waiting (is_team ev.winner_team) (resolve_pending ev ctx m (state, effects)) (state, effects)
      (Waiting-taken ev.match_guid _ ev.winner_team _ ctx state effects h) h
Waiting-end_found none ev ctx (state, effects) h =
    let attached = attach_terminal_guid_to_current ev.match_guid state in
    let first = Waiting-attach ev.match_guid state h in
    if-Waiting (ends_current attached ev.match_guid) (end_current ev ctx (attached, effects))
      (attached, effects)
      (Waiting-finalize ev.winner_team _ ctx _ (Waiting-of_eq _ attached refl first)) first

Waiting-mark_void :
    (reason : String) (r : MatchState × SideEffects)
    → Waiting r.0
    → Waiting (mark_destroyed_match_void reason r).0
unfolding mark_destroyed_match_void
Waiting-mark_void reason (state, effects) =
    Waiting-of_eq _ state (pending-record_terminal_match_guid state.match_guid state)

Waiting-keep_or_void :
    (m : CapturedMatch) (o : Option PostMatchMmrRefresh) (ctx : ReducerContext)
    (r : MatchState × SideEffects)
    → WaitsFor (m.match_guid, m)
    → Waiting r.0
    → Waiting (keep_or_void m o ctx r).0
unfolding Waiting
Waiting-keep_or_void m none ctx r w h = Waiting-mark_void "missing_local_tracker_identity" r h
Waiting-keep_or_void m (some refresh) ctx (state, effects) w h =
    All-emplace m.match_guid m state.pending_destroyed_matches w h

Waiting-leave_early :
    (exit : Bool × String × String) (ctx : ReducerContext) (r : MatchState × SideEffects)
    → is_valid_early_competitive_exit r.0 "" "" ≡ exit
    → Waiting r.0
    → Waiting (leave_early exit ctx r).0
Waiting-leave_early (false, mode, reason) ctx r e h = Waiting-mark_void reason r h
Waiting-leave_early (true, mode, reason) ctx (state, effects) e h =
    let now = ctx.system_now_ms in
    let m : CapturedMatch = record (capture_match now state) { mode = mode } in
    let w : WaitsFor (m.match_guid, m) = early_exit-WaitsFor now state mode reason e in
    if-Waiting state.explicit_local_forfeit
      (finalize_match (pos 1 -ℤ state.my_team) MatchFinalizeSource.local_forfeit ctx
        (state, effects))
      (keep_or_void m (build_post_match_mmr_refresh m false) ctx (state, effects))
      (Waiting-finalize (pos 1 -ℤ state.my_team) MatchFinalizeSource.local_forfeit ctx
        (state, effects) h)
      (Waiting-keep_or_void m (build_post_match_mmr_refresh m false) ctx (state, effects) w h)

Waiting-settle :
    (winner : ℤ) (ctx : ReducerContext) (r : MatchState × SideEffects)
    → Waiting r.0
    → Waiting (settle winner ctx r).0
unfolding settle
Waiting-settle winner ctx (state, effects) h =
    let exit = is_valid_early_competitive_exit state "" "" in
    if-Waiting state.match_finalized (state, effects) _ h
      (if-Waiting (is_team winner) _ _ (Waiting-finalize winner _ ctx (state, effects) h)
        (Waiting-leave_early exit ctx (state, effects) refl h))

Waiting-leave_arena : (r : MatchState × SideEffects) → Waiting r.0 → Waiting (leave_arena r).0
Waiting-leave_arena r = Waiting-of_eq _ r.0 refl

Waiting-cleared :
    (ev : MatchDestroyedEvent) (state : MatchState)
    → Waiting state
    → Waiting (clear_ui (note_destroyed ev state))
unfolding reset_timing
Waiting-cleared ev state = Waiting-of_eq _ state refl

Waiting-handle_match_destroyed :
    (ev : MatchDestroyedEvent) (ctx : ReducerContext) (r : MatchState × SideEffects)
    → Waiting r.0
    → Waiting (handle_match_destroyed ev ctx r).0
unfolding handle_match_destroyed
Waiting-handle_match_destroyed ev ctx (state, effects) h =
    let attached = attach_terminal_guid_to_current ev.match_guid state in
    let noted = note_destroyed ev attached in
    let settled = settle (winner_or_none ev.winner_team) ctx (clear_ui noted, effects) in
    let first = Waiting-attach ev.match_guid state h in
    if-Waiting (is_for_other_match attached ev.match_guid) (attached, effects) _ first
      (if-Waiting (not noted.in_match) (noted, effects) _ (Waiting-of_eq noted attached refl first)
        (Waiting-leave_arena settled (
          Waiting-settle (winner_or_none ev.winner_team) ctx (clear_ui noted, effects)
            (Waiting-cleared ev attached first))))

Waiting-published :
    (r : MatchState × SideEffects) → Waiting r.0 → Waiting (publish_ui_timestamps r).0
unfolding publish_ui_timestamps
Waiting-published r = Waiting-of_eq _ r.0 refl

Waiting-confirm_found :
    (o : Option CapturedMatch) (match_guid : String) (won : Bool) (ctx : ReducerContext)
    (state : MatchState)
    → Waiting state
    → Waiting (confirm_found o match_guid won ctx state).0
Waiting-confirm_found none match_guid won ctx state h = h
Waiting-confirm_found (some m) match_guid won ctx state h =
    if-Waiting (is_finalized_guid state match_guid) (state, no_effects) _ h
      (Waiting-published _ (Waiting-taken match_guid m _ _ ctx state no_effects h))

pub Waiting-confirm :
    (match_guid : String) (won : Bool) (ctx : ReducerContext) (state : MatchState)
    → Waiting state
    → Waiting (confirm_pending_destroyed_match match_guid won ctx state).0
unfolding confirm_pending_destroyed_match
Waiting-confirm match_guid won ctx state =
    Waiting-confirm_found (lookup match_guid state.pending_destroyed_matches) match_guid won ctx
      state

Waiting-Kept :
    (r s : MatchState × SideEffects) → kept_all s ≡ kept_all r → Waiting r.0 → Waiting s.0
unfolding kept_all
Waiting-Kept r s e = Waiting-of_eq s.0 r.0 (ap (λ k. k.0.1) e)

Waiting-visit :
    (event : TelemetryEvent) (ctx : ReducerContext) (r : MatchState × SideEffects)
    → Waiting r.0
    → Waiting (visit event ctx r).0
unfolding handle_match_ended
Waiting-visit event ctx r h = elim (visit-Visited event ctx r) [
  | inl e ↦ Waiting-Kept r _ e h
  | inr (inl (ev, e)) ↦ rw e (Waiting-end_found (find_pending r.0 ev.match_guid) ev ctx r h)
  | inr (inr (ev, e)) ↦ rw e (Waiting-handle_match_destroyed ev ctx r h)
]

pub Waiting-reduce :
    (event : TelemetryEvent) (ctx : ReducerContext) (state : MatchState)
    → Waiting state
    → Waiting (reduce event ctx state).0
unfolding reduce
Waiting-reduce event ctx state h = Waiting-published _ (
    Waiting-visit event ctx _
      (Waiting-of_eq (record state { current_reducer_now_ms = _ }) state refl h))

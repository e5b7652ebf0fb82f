-- ===== src/Reducer/Version.antt =====
-- No handler of src/core/reducer writes the version of the state, which counts the snapshots that
-- src/core/state/LiveMatchStore.cpp publishes.
use omni_stats.Prelude.{
  ℕ, ◌≡◌, refl, ◌∙◌, ap, String, Bool, true, false, not, ◌&&◌, Option, none, some, arith, inl, inr,
  if◌then◌else◌, str_eq,
}
use omni_stats.Prelude.Int.{ℤ, pos, ◌-ℤ◌}
use omni_stats.Matches.{
  MatchState, CapturedMatch, MatchEndDecision, capture_match, classify_match_end, is_team,
  is_valid_early_competitive_exit,
}
use omni_stats.Matches.Reset.{reset_timing}
use omni_stats.Matches.Refresh.{PostMatchMmrRefresh, build_post_match_mmr_refresh}
use omni_stats.Reducer.Types.{
  SideEffects, no_effects, ReducerContext, MatchFinalizeSource, MatchEndedEvent,
  MatchDestroyedEvent,
}
use omni_stats.Reducer.Effects.{push_discord, publish_ui_timestamps}
use omni_stats.Reducer.Guids.{
  is_finalized_guid, record_terminal_match_guid, attach_terminal_guid_to_current,
}
use omni_stats.Reducer.Finalize.{
  show_result, leave_match, count_match, show_if_current, save_counted, keep_match, conclude,
  is_current_match, finalize_captured_match, finalize_match,
}
use omni_stats.Reducer.Terminal.{
  end_found, find_pending, ends_current, resolve_pending, end_current, handle_match_ended,
  confirm_found, confirm_pending_destroyed_match,
}
use omni_stats.Reducer.Destroyed.{
  mark_destroyed_match_void, leave_early, keep_or_void, settle, handle_match_destroyed, leave_arena,
  clear_ui, note_destroyed, winner_or_none, is_for_other_match,
}
use omni_stats.Reducer.Events.{TelemetryEvent, reduce}
use omni_stats.Reducer.Frame.{kept_all, kept-attach_terminal}
use omni_stats.Reducer.Visits.{visit-Visited}

abbrev Same : ℕ → MatchState × SideEffects → Type 0
Same version (state, effects) = state.version ≡ version

if-Same :
    (n : ℕ) (b : Bool) (s t : MatchState × SideEffects)
    → Same n s
    → Same n t
    → Same n (if b then s else t)
if-Same n true s t h k = h
if-Same n false s t h k = k

leave_match-Same :
    (n : ℕ) (b : Bool) (r : MatchState × SideEffects) → Same n r → Same n (leave_match b r)
unfolding leave_match reset_timing
leave_match-Same n true r h = h
leave_match-Same n false r h = h

show_if_current-Same :
    (n : ℕ) (b : Bool) (m : CapturedMatch) (winner : ℤ) (d : MatchEndDecision)
    (ctx : ReducerContext) (r : MatchState × SideEffects)
    → Same n r
    → Same n (show_if_current b m winner d ctx r)
unfolding show_result
show_if_current-Same n true m winner d ctx r h = h
show_if_current-Same n false m winner d ctx r h = h

count_match-Same :
    (n : ℕ) (m : CapturedMatch) (i_won : Bool) (r : MatchState × SideEffects)
    → Same n r
    → Same n (count_match m i_won r)
unfolding count_match
count_match-Same n m i_won (state, effects) h = ground (arith, h)

keep_match-Same :
    (n : ℕ) (keep is_current : Bool) (m : CapturedMatch) (winner : ℤ) (d : MatchEndDecision)
    (source : MatchFinalizeSource) (enqueue : Bool) (ctx : ReducerContext)
    (r : MatchState × SideEffects)
    → Same n r
    → Same n (keep_match keep is_current m winner d source enqueue ctx r)
keep_match-Same n true is_current m winner d source enqueue ctx r h =
    leave_match-Same n is_current
      (save_counted m winner d source enqueue ctx (count_match m d.i_won r))
      (count_match-Same n m d.i_won r h)
keep_match-Same n false is_current m winner d source enqueue ctx r h =
    leave_match-Same n is_current r h

record_terminal-version :
    (guid : String) (state : MatchState)
    → (record_terminal_match_guid guid state).version ≡ state.version
unfolding record_terminal_match_guid
record_terminal-version guid state = ground arith

finalize_captured_match-Same :
    (n : ℕ) (m : CapturedMatch) (winner : ℤ) (source : MatchFinalizeSource) (enqueue : Bool)
    (ctx : ReducerContext) (r : MatchState × SideEffects)
    → Same n r
    → Same n (finalize_captured_match m winner source enqueue ctx r)
unfolding finalize_captured_match conclude
finalize_captured_match-Same n m winner source enqueue ctx (state, effects) h =
    let recorded = record_terminal_match_guid m.match_guid state in
    let d = classify_match_end m winner in
    let current = is_current_match recorded m in
    if-Same n (not (str_eq m.match_guid "") && is_finalized_guid state m.match_guid)
      (state, effects) _ h
      (keep_match-Same n d.should_persist current m winner d source enqueue ctx
        (show_if_current current m winner d ctx (recorded, effects))
        (show_if_current-Same n current m winner d ctx (recorded, effects)
          (record_terminal-version m.match_guid state ∙ h)))

finalize_match-Same :
    (n : ℕ) (winner : ℤ) (source : MatchFinalizeSource) (ctx : ReducerContext)
    (r : MatchState × SideEffects)
    → Same n r
    → Same n (finalize_match winner source ctx r)
unfolding finalize_match
finalize_match-Same n winner source ctx (state, effects) h =
    if-Same n _ (state, effects) _ h
      (finalize_captured_match-Same n _ winner source true ctx (state, effects) h)

attach_terminal-version :
    (guid : String) (state : MatchState)
    → (attach_terminal_guid_to_current guid state).version ≡ state.version
attach_terminal-version guid state = ap (λ k. k.4) (kept-attach_terminal guid state)

end_found-Same :
    (n : ℕ) (o : Option CapturedMatch) (ev : MatchEndedEvent) (ctx : ReducerContext)
    (r : MatchState × SideEffects)
    → Same n r
    → Same n (end_found o ev ctx r)
end_found-Same n (some m) ev ctx (state, effects) h =
    if-Same n (is_team ev.winner_team) (resolve_pending ev ctx m (state, effects)) (state, effects)
      (finalize_captured_match-Same n _ _ _ _ _ (_, effects) h) h
end_found-Same n none ev ctx (state, effects) h =
    let attached = attach_terminal_guid_to_current ev.match_guid state in
    let same = attach_terminal-version ev.match_guid state ∙ h in
    if-Same n (ends_current attached ev.match_guid) (end_current ev ctx (attached, effects))
      (attached, effects) (finalize_match-Same n _ _ _ (_, effects) same) same

handle_match_ended-Same :
    (n : ℕ) (ev : MatchEndedEvent) (ctx : ReducerContext) (r : MatchState × SideEffects)
    → Same n r
    → Same n (handle_match_ended ev ctx r)
unfolding handle_match_ended
handle_match_ended-Same n ev ctx (state, effects) h =
    end_found-Same n (find_pending state ev.match_guid) ev ctx (state, effects) h

mark_destroyed_match_void-Same :
    (n : ℕ) (reason : String) (r : MatchState × SideEffects)
    → Same n r
    → Same n (mark_destroyed_match_void reason r)
unfolding mark_destroyed_match_void push_discord
mark_destroyed_match_void-Same n reason (state, effects) h =
    record_terminal-version state.match_guid state ∙ h

keep_or_void-Same :
    (n : ℕ) (m : CapturedMatch) (o : Option PostMatchMmrRefresh) (ctx : ReducerContext)
    (r : MatchState × SideEffects)
    → Same n r
    → Same n (keep_or_void m o ctx r)
keep_or_void-Same n m none ctx r h = mark_destroyed_match_void-Same n _ r h
keep_or_void-Same n m (some refresh) ctx (state, effects) h = h

leave_early-Same :
    (n : ℕ) (exit : Bool × String × String) (ctx : ReducerContext) (r : MatchState × SideEffects)
    → Same n r
    → Same n (leave_early exit ctx r)
leave_early-Same n (false, mode, reason) ctx r h = mark_destroyed_match_void-Same n reason r h
leave_early-Same n (true, mode, reason) ctx (state, effects) h =
    let m : CapturedMatch = record (capture_match ctx.system_now_ms state) { mode = mode } in
    if-Same n state.explicit_local_forfeit _ _
      (finalize_match-Same n (pos 1 -ℤ state.my_team) MatchFinalizeSource.local_forfeit ctx
        (state, effects) h)
      (keep_or_void-Same n m (build_post_match_mmr_refresh m false) ctx (state, effects) h)

settle-Same :
    (n : ℕ) (winner : ℤ) (ctx : ReducerContext) (r : MatchState × SideEffects)
    → Same n r
    → Same n (settle winner ctx r)
unfolding settle
settle-Same n winner ctx (state, effects) h =
    if-Same n state.match_finalized (state, effects) _ h
      (if-Same n (is_team winner) _ _ (finalize_match-Same n winner _ ctx (state, effects) h)
        (leave_early-Same n (is_valid_early_competitive_exit state "" "") ctx (state, effects) h))

leave_arena-Same : (n : ℕ) (r : MatchState × SideEffects) → Same n r → Same n (leave_arena r)
unfolding push_discord
leave_arena-Same n r h = h

handle_match_destroyed-Same :
    (n : ℕ) (ev : MatchDestroyedEvent) (ctx : ReducerContext) (r : MatchState × SideEffects)
    → Same n r
    → Same n (handle_match_destroyed ev ctx r)
unfolding handle_match_destroyed reset_timing
handle_match_destroyed-Same n ev ctx (state, effects) h =
    let attached = attach_terminal_guid_to_current ev.match_guid state in
    let same = attach_terminal-version ev.match_guid state ∙ h in
    let noted = note_destroyed ev attached in
    let settled = settle (winner_or_none ev.winner_team) ctx (clear_ui noted, effects) in
    if-Same n (is_for_other_match attached ev.match_guid) (attached, effects) _ same
      (if-Same n (not noted.in_match) (noted, effects) (leave_arena settled) same
        (leave_arena-Same n settled (settle-Same n _ ctx (clear_ui noted, effects) same)))

pub version-reduce :
    (event : TelemetryEvent) (ctx : ReducerContext) (state : MatchState)
    → (reduce event ctx state).0.version ≡ state.version
unfolding reduce publish_ui_timestamps kept_all
version-reduce event ctx state = elim (visit-Visited event ctx _) [
  | inl k ↦ ap (λ r. r.0.4) k
  | inr (inl (ev, e)) ↦
      ap (λ r. r.0.version) e ∙ handle_match_ended-Same state.version ev ctx _ refl
  | inr (inr (ev, e)) ↦
      ap (λ r. r.0.version) e ∙ handle_match_destroyed-Same state.version ev ctx _ refl
]

confirm_found-version :
    (o : Option CapturedMatch) (guid : String) (won : Bool) (ctx : ReducerContext)
    (state : MatchState)
    → Same state.version (confirm_found o guid won ctx state)
unfolding publish_ui_timestamps
confirm_found-version none guid won ctx state = refl
confirm_found-version (some m) guid won ctx state =
    if-Same state.version (is_finalized_guid state guid) (state, no_effects) _ refl
      (finalize_captured_match-Same state.version m _ _ _ _ (_, no_effects) refl)

pub version-confirm :
    (guid : String) (won : Bool) (ctx : ReducerContext) (state : MatchState)
    → (confirm_pending_destroyed_match guid won ctx state).0.version ≡ state.version
unfolding confirm_pending_destroyed_match
version-confirm guid won ctx state = confirm_found-version _ guid won ctx state

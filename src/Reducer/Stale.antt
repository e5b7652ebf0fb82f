-- ===== src/Reducer/Stale.antt =====
-- Late and repeated ends of a match: `HandleMatchEnded` and `ConfirmPendingDestroyedMatch` of
-- src/core/reducer/TelemetryReducerFinalize.cpp.
use omni_stats.Prelude.{
  ◌≡◌, refl, ◌∙◌, sym, ap, String, Bool, true, false, not, ◌&&◌, Option, none, some, arith, inl,
  inr, Bool-cases, Option-cases, if◌then◌else◌, str_eq, eq_iff,
}
use omni_stats.Prelude.Int.{ℤ}
use omni_stats.Prelude.Maps.{lookup, erase, lookup-erase}
use omni_stats.Matches.{MatchState, CapturedMatch, is_team}
use omni_stats.Reducer.Types.{
  SideEffects, no_effects, ReducerContext, MatchFinalizeSource, MatchEndedEvent,
}
use omni_stats.Reducer.Effects.{publish_ui_timestamps}
use omni_stats.Reducer.Guids.{is_finalized_guid, attach_terminal_guid_to_current}
use omni_stats.Reducer.Finalize.{finalize_captured_match, finalize_match}
use omni_stats.Reducer.Terminal.{
  end_found, find_pending, ends_current, end_current, resolve_pending, handle_match_ended,
  confirm_found, confirmed_winner, confirm_pending_destroyed_match,
}
use omni_stats.Reducer.Finalized.{pending-finalize_captured_match}
use omni_stats.Reducer.Counts.{results}
use omni_stats.Reducer.Waiting.{Waiting, lookup-WaitsFor}

-- No save, and neither the results of the session nor the finalized guids change.
unfoldable pub IsStale : MatchState → MatchState × SideEffects → Type 0
IsStale state r =
    (r.1.save ≡ none)
    × (results r.0 ≡ results state)
    × (r.0.finalized_match_guids ≡ state.finalized_match_guids)

finalize_captured_match-IsStale :
    (m : CapturedMatch) (winner : ℤ) (source : MatchFinalizeSource) (enqueue : Bool)
    (ctx : ReducerContext) (state : MatchState) (effects : SideEffects)
    → not (str_eq m.match_guid "") && is_finalized_guid state m.match_guid ≡ true
    → effects.save ≡ none
    → IsStale state (finalize_captured_match m winner source enqueue ctx (state, effects))
unfolding finalize_captured_match IsStale
finalize_captured_match-IsStale m winner source enqueue ctx state effects h n = rw h (n, refl, refl)

resolve_pending-IsStale :
    (ev : MatchEndedEvent) (ctx : ReducerContext) (m : CapturedMatch) (state : MatchState)
    → not (str_eq m.match_guid "") && is_finalized_guid state m.match_guid ≡ true
    → IsStale state (resolve_pending ev ctx m (state, no_effects))
unfolding IsStale
resolve_pending-IsStale ev ctx m state h =
    finalize_captured_match-IsStale _ ev.winner_team _ false ctx
      (record state {
        pending_destroyed_matches = erase ev.match_guid state.pending_destroyed_matches;
      })
      no_effects h refl

attach-finalized :
    (guid : String) (state : MatchState)
    → is_finalized_guid state guid ≡ true
    → attach_terminal_guid_to_current guid state ≡ state
unfolding attach_terminal_guid_to_current
attach-finalized guid state h = ground (arith, h)

finalize_match-IsStale :
    (winner : ℤ) (source : MatchFinalizeSource) (ctx : ReducerContext) (state : MatchState)
    → not (str_eq state.match_guid "") && is_finalized_guid state state.match_guid ≡ true
    → IsStale state (finalize_match winner source ctx (state, no_effects))
unfolding finalize_match IsStale
finalize_match-IsStale winner source ctx state h = elim (Bool-cases state.match_finalized) [
  | inl e ↦ simp e (refl, refl, refl)
  | inr e ↦ simp (e, h) (refl, refl, refl)
]

end_current-IsStale :
    (ev : MatchEndedEvent) (ctx : ReducerContext) (state : MatchState)
    → not (str_eq state.match_guid "") && is_finalized_guid state state.match_guid ≡ true
    → IsStale state (end_current ev ctx (state, no_effects))
unfolding IsStale
end_current-IsStale ev ctx state h = finalize_match-IsStale ev.winner_team _ ctx _ h

if-IsStale :
    (b : Bool) (state : MatchState) (r s : MatchState × SideEffects)
    → (b ≡ true → IsStale state r)
    → IsStale state s
    → IsStale state (if b then r else s)
if-IsStale true state r s h k = h refl
if-IsStale false state r s h k = k

nothing-IsStale : (state : MatchState) → IsStale state (state, no_effects)
unfolding IsStale
nothing-IsStale state = (refl, refl, refl)

end_found-IsStale :
    (o : Option CapturedMatch) (ev : MatchEndedEvent) (ctx : ReducerContext) (state : MatchState)
    → find_pending state ev.match_guid ≡ o
    → str_eq ev.match_guid "" ≡ false
    → is_finalized_guid state ev.match_guid ≡ true
    → Waiting state
    → IsStale state (end_found o ev ctx (state, no_effects))
unfolding Waiting ends_current
end_found-IsStale (some m) ev ctx state e n f w =
    let found : lookup ev.match_guid state.pending_destroyed_matches ≡ some m = rw n at e in
    let same = (lookup-WaitsFor ev.match_guid m state.pending_destroyed_matches w found).4 in
    if-IsStale (is_team ev.winner_team) state (resolve_pending ev ctx m (state, no_effects))
      (state, no_effects)
      (λ t. resolve_pending-IsStale ev ctx m state (rw same (ground (arith, n, f))))
      (nothing-IsStale state)
end_found-IsStale none ev ctx state e n f w = rw (attach-finalized ev.match_guid state f) (
    if-IsStale (ends_current state ev.match_guid) state (end_current ev ctx (state, no_effects))
      (state, no_effects)
      (λ t.
        let same : ev.match_guid ≡ state.match_guid =
          (eq_iff ev.match_guid state.match_guid).0 (ground (arith, t, n)) in
        end_current-IsStale ev ctx state (rw (sym same) (ground (arith, n, f))))
      (nothing-IsStale state))

-- A `MatchEndedEvent` for a match that is finalized already, whether it is the current match, a
-- pending one or neither, asks for no save and leaves the wins and losses of the session and the set
-- of finalized guids as they are.
pub handle_match_ended-IsStale :
    (ev : MatchEndedEvent) (ctx : ReducerContext) (state : MatchState)
    → str_eq ev.match_guid "" ≡ false
    → is_finalized_guid state ev.match_guid ≡ true
    → Waiting state
    → IsStale state (handle_match_ended ev ctx (state, no_effects))
unfolding handle_match_ended
handle_match_ended-IsStale ev ctx state =
    end_found-IsStale (find_pending state ev.match_guid) ev ctx state refl

confirm_found-erases :
    (m : CapturedMatch) (guid : String) (won : Bool) (ctx : ReducerContext) (state : MatchState)
    → is_finalized_guid state guid ≡ false
    → lookup guid (confirm_found (some m) guid won ctx state).0.pending_destroyed_matches ≡ none
unfolding publish_ui_timestamps
confirm_found-erases m guid won ctx state f = rw f (
    ap (lookup guid) (
      pending-finalize_captured_match m (confirmed_winner m won)
        MatchFinalizeSource.tracker_confirmed_destroyed false ctx _)
    ∙ lookup-erase guid guid state.pending_destroyed_matches
    ∙ ground (arith, eq_iff guid guid))

-- A second confirmation of a match, whatever it says, changes nothing and asks for nothing.
pub confirm_pending_destroyed_match_idem :
    (guid : String) (won again : Bool) (ctx later : ReducerContext) (state : MatchState)
    → let after = (confirm_pending_destroyed_match guid won ctx state).0 in
      confirm_pending_destroyed_match guid again later after ≡ (after, no_effects)
unfolding confirm_pending_destroyed_match
confirm_pending_destroyed_match_idem guid won again ctx later state =
    elim (Option-cases (lookup guid state.pending_destroyed_matches)) [
      | inl e ↦ rw e (rw e refl)
      | inr (m, e) ↦ rw e (elim (Bool-cases (is_finalized_guid state guid)) [
        | inl f ↦ rw f (rw e (rw f refl))
        | inr f ↦ rw (confirm_found-erases m guid won ctx state f) refl
      ])
    ]

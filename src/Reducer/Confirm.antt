-- ===== src/Reducer/Confirm.antt =====
-- `FinalizeCapturedMatch` on a match that is kept, and `ConfirmPendingDestroyedMatch` of
-- src/core/reducer/TelemetryReducerFinalize.cpp.
use omni_stats.Prelude.{
  ◌≡◌, refl, ◌∙◌, ap, subst, String, Bool, true, false, not, ◌&&◌, List, Option, none, some, arith,
  inl, inr, ◌⊎◌, Bool-cases, if◌then◌else◌, str_eq, eq_iff,
}
use omni_stats.Prelude.Int.{ℤ, pos, ◌-ℤ◌, eqb_ℤ, eq_of_parts}
use omni_stats.Prelude.Maps.{lookup, erase, lookup-erase}
use omni_stats.Matches.{
  MatchState, CapturedMatch, MatchEndDecision, is_team, classify_match_end, new_match_state,
}
use omni_stats.Matches.Validation.{counted}
use omni_stats.Reducer.Types.{
  SideEffects, no_effects, ReducerContext, MatchFinalizeSource, MatchSaveSnapshot,
}
use omni_stats.Reducer.Effects.{publish_ui_timestamps, build_match_save_snapshot}
use omni_stats.Reducer.Guids.{is_finalized_guid, record_terminal_match_guid}
use omni_stats.Reducer.Finalize.{
  conclude, keep_match, show_if_current, save_counted, count_match, request_save, is_current_match,
  finalize_captured_match,
}
use omni_stats.Reducer.Terminal.{confirm_found, confirmed_winner, confirm_pending_destroyed_match}
use omni_stats.Reducer.Once.{guids-leave_match}
use omni_stats.Reducer.Finalized.{pending-finalize_captured_match}
use omni_stats.Reducer.Waiting.{Waiting, lookup-WaitsFor}
use omni_stats.Reducer.Runs.{Run, Run-Waiting, new_match_state-Waiting}

-- The save is of this match, with this winner, and valid.
abbrev pub IsSaved : CapturedMatch → ℤ → Option MatchSaveSnapshot → Type 0
IsSaved m winner save =
    (s : MatchSaveSnapshot) × (save ≡ some s)
    × (s.match_guid ≡ m.match_guid)
    × (s.winner_team ≡ winner)
    × (s.valid_result ≡ true)
    × (s.result_pending ≡ false)
    × (s.score ≡ m.score)
    × (s.roster ≡ m.roster)

conclude-IsSaved :
    (keep is_current : Bool) (m : CapturedMatch) (winner : ℤ) (d : MatchEndDecision)
    (source : MatchFinalizeSource) (enqueue : Bool) (ctx : ReducerContext)
    (r : MatchState × SideEffects)
    → keep ≡ true
    → d.should_persist ≡ true
    → IsSaved m winner (keep_match keep is_current m winner d source enqueue ctx r).1.save
unfolding request_save build_match_save_snapshot
conclude-IsSaved false is_current m winner d source enqueue ctx r k p = cc
conclude-IsSaved true is_current m winner d source enqueue ctx r k p =
    let l =
      guids-leave_match is_current
        (save_counted m winner d source enqueue ctx (count_match m d.i_won r)) in
    (_, l.1, refl, refl, p, refl, refl, refl)

-- A match that is not finalized yet and that `ClassifyMatchEnd` keeps is saved.
pub finalize_captured_match-IsSaved :
    (m : CapturedMatch) (winner : ℤ) (source : MatchFinalizeSource) (enqueue : Bool)
    (ctx : ReducerContext) (r : MatchState × SideEffects)
    → is_finalized_guid r.0 m.match_guid ≡ false
    → (classify_match_end m winner).should_persist ≡ true
    → IsSaved m winner (finalize_captured_match m winner source enqueue ctx r).1.save
unfolding finalize_captured_match conclude
finalize_captured_match-IsSaved m winner source enqueue ctx (state, effects) f p =
    let recorded = record_terminal_match_guid m.match_guid state in
    let d = classify_match_end m winner in
    let current = is_current_match recorded m in
    let new : not (str_eq m.match_guid "") && is_finalized_guid state m.match_guid ≡ false =
      ground (arith, f) in
    rw new (
      conclude-IsSaved d.should_persist current m winner d source enqueue ctx
        (show_if_current current m winner d ctx (recorded, effects)) p p)

team_cases : (t : ℤ) → is_team t ≡ true → (t ≡ pos 0) ⊎ (t ≡ pos 1)
team_cases t h = elim (Bool-cases (eqb_ℤ t (pos 0))) [
  | inl e ↦ inl (eq_of_parts t (pos 0) (ground (arith, e)))
  | inr e ↦ inr (eq_of_parts t (pos 1) (ground (arith, e, h)))
]

-- The winner that a confirmation gives is a team.
winner_cases :
    (m : CapturedMatch) (won : Bool)
    → is_team m.my_team ≡ true
    → (confirmed_winner m won ≡ pos 0) ⊎ (confirmed_winner m won ≡ pos 1)
unfolding ◌-ℤ◌
winner_cases m won h = elim (team_cases m.my_team h) [
  | inl e ↦ simp e (elim (Bool-cases won) [ inl w ↦ rw w (inl refl) | inr w ↦ rw w (inr refl) ])
  | inr e ↦ simp e (elim (Bool-cases won) [ inl w ↦ rw w (inr refl) | inr w ↦ rw w (inl refl) ])
]

waiting_persists :
    (m : CapturedMatch) (w : ℤ)
    → classify_match_end m (pos 0) ≡ counted m (pos 0)
    → classify_match_end m (pos 1) ≡ counted m (pos 1)
    → (w ≡ pos 0) ⊎ (w ≡ pos 1)
    → (classify_match_end m w).should_persist ≡ true
waiting_persists m w b o (inl e) = rw e (ap (λ d. d.should_persist) b)
waiting_persists m w b o (inr e) = rw e (ap (λ d. d.should_persist) o)

confirm_found-IsSaved :
    (m : CapturedMatch) (guid : String) (won : Bool) (ctx : ReducerContext) (state : MatchState)
    → is_finalized_guid state guid ≡ false
    → is_finalized_guid state m.match_guid ≡ false
    → (classify_match_end m (confirmed_winner m won)).should_persist ≡ true
    → let r = confirm_found (some m) guid won ctx state in
      IsSaved m (confirmed_winner m won) r.1.save
      × (r.0.pending_destroyed_matches ≡ erase guid state.pending_destroyed_matches)
unfolding publish_ui_timestamps
confirm_found-IsSaved m guid won ctx state f g p =
    let erased = record state {
      pending_destroyed_matches = erase guid state.pending_destroyed_matches;
    } in
    let source = MatchFinalizeSource.tracker_confirmed_destroyed in
    rw f (
      finalize_captured_match-IsSaved m (confirmed_winner m won) source false ctx
          (erased, no_effects) g p,
      pending-finalize_captured_match m (confirmed_winner m won) source false ctx
          (erased, no_effects),
    )

-- After any run from the initial state, the confirmation of a match that is pending and was not
-- finalized meanwhile saves it: a valid result of this guid, not pending any more, with the score and
-- the roster of the pending match, and won by the local team exactly as the tracker says. The match
-- then does not wait any more.
pub pending-IsSaved :
    (guid : String) (m : CapturedMatch) (won : Bool) (ctx : ReducerContext) {state : MatchState}
    {saves : List MatchSaveSnapshot}
    → Run new_match_state saves state
    → lookup guid state.pending_destroyed_matches ≡ some m
    → is_finalized_guid state guid ≡ false
    → let r = confirm_pending_destroyed_match guid won ctx state in
      let winner = if won then m.my_team else pos 1 -ℤ m.my_team in
      (m.match_guid ≡ guid)
      × IsSaved m winner r.1.save
      × (lookup guid r.0.pending_destroyed_matches ≡ none)
unfolding confirm_pending_destroyed_match Waiting
pending-IsSaved guid m won ctx {state} run found f =
    let w =
      lookup-WaitsFor guid m state.pending_destroyed_matches
        (Run-Waiting run new_match_state-Waiting) found in
    let g : is_finalized_guid state m.match_guid ≡ false = rw w.4 f in
    let winner : confirmed_winner m won ≡ (if won then m.my_team else pos 1 -ℤ m.my_team) =
      ground (arith, w.1) in
    let p = waiting_persists m (confirmed_winner m won) w.2 w.3 (winner_cases m won w.1) in
    let s = confirm_found-IsSaved m guid won ctx state f g p in
    rw found (
      w.4,
      subst (λ x. IsSaved m x (confirm_found (some m) guid won ctx state).1.save) winner s.0,
      ap (lookup guid) s.1
          ∙ (lookup-erase guid guid state.pending_destroyed_matches)
          ∙ ground (arith, eq_iff guid guid),
    )

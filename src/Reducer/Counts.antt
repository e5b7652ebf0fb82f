-- ===== src/Reducer/Counts.antt =====
-- The wins and losses of a session, through `FinalizeCapturedMatch` of
-- src/core/reducer/TelemetryReducerFinalize.cpp.
use omni_stats.Prelude.{
  ◌≡◌, refl, ◌∙◌, ap, String, Bool, true, false, not, ◌&&◌, List, none, arith, inl, inr, Bool-cases,
  if◌then◌else◌, str_eq, ◌==◌, is_some,
}
use omni_stats.Prelude.Int.{ℤ, pos, ◌+ℤ◌, eqb_ℤ}
use omni_stats.Matches.{
  MatchState, CapturedMatch, MatchEndDecision, SessionTotals, GamemodeStat, classify_match_end,
}
use omni_stats.Matches.Reset.{reset_timing}
use omni_stats.Matches.Validation.{classify_match_end_lem}
use omni_stats.Reducer.Types.{SideEffects, ReducerContext, MatchFinalizeSource}
use omni_stats.Reducer.Guids.{is_finalized_guid, record_terminal_match_guid}
use omni_stats.Reducer.Once.{guids-leave_match}
use omni_stats.Reducer.Totals.{add_match_to_session_totals}
use omni_stats.Reducer.Finalize.{
  conclude, keep_match, leave_match, show_if_current, show_result, save_counted, count_match,
  request_save, is_current_match, finalize_captured_match,
}

abbrev pub plus_if : Bool → ℤ → ℤ
plus_if b n = if b then n +ℤ pos 1 else n

-- The wins and losses.
abbrev pub results : MatchState → ℤ × ℤ
results state = (state.session_totals.wins, state.session_totals.losses)

-- The session that the match was played in, at the time of its capture, is still the current one.
abbrev pub is_in_session : CapturedMatch → MatchState → Bool
is_in_session m state = m.session_generation == state.session_generation

abbrev pub results_with : Bool → Bool → MatchState → ℤ × ℤ
results_with counts i_won state = (
  plus_if (counts && i_won) state.session_totals.wins,
  plus_if (counts && not i_won) state.session_totals.losses,
)

results-leave_match :
    (b : Bool) (r : MatchState × SideEffects) → results (leave_match b r).0 ≡ results r.0
unfolding leave_match reset_timing
results-leave_match true r = refl
results-leave_match false r = refl

results-show :
    (b : Bool) (m : CapturedMatch) (winner : ℤ) (d : MatchEndDecision) (ctx : ReducerContext)
    (r : MatchState × SideEffects)
    → (results (show_if_current b m winner d ctx r).0 ≡ results r.0)
      × ((show_if_current b m winner d ctx r).0.session_generation ≡ r.0.session_generation)
      × ((show_if_current b m winner d ctx r).1.save ≡ r.1.save)
unfolding show_result
results-show true m winner d ctx r = (refl, refl, refl)
results-show false m winner d ctx r = (refl, refl, refl)

results-add :
    (m : CapturedMatch) (i_won : Bool) (totals : SessionTotals)
    (gamemodes : List (String × GamemodeStat))
    → let t = (add_match_to_session_totals m i_won (totals, gamemodes)).0 in
      (t.wins ≡ plus_if i_won totals.wins) × (t.losses ≡ plus_if (not i_won) totals.losses)
unfolding add_match_to_session_totals
results-add m true totals gamemodes = elim (Bool-cases (str_eq m.mode "1v1")) [
  | inl e ↦ rw e (refl, refl)
  | inr e ↦ rw e (refl, refl)
]
results-add m false totals gamemodes = elim (Bool-cases (str_eq m.mode "1v1")) [
  | inl e ↦ rw e (refl, refl)
  | inr e ↦ rw e (refl, refl)
]

abbrev both : ℤ → ℤ → ℤ × ℤ
both a b = (a, b)

pair_eq : {a b c d : ℤ} → a ≡ b → c ≡ d → both a c ≡ both b d
pair_eq e f = rw (e, f) refl

results-count_match :
    (m : CapturedMatch) (i_won : Bool) (r : MatchState × SideEffects)
    → results (count_match m i_won r).0 ≡ results_with (is_in_session m r.0) i_won r.0
unfolding count_match
results-count_match m i_won (state, effects) =
    let added = results-add m i_won state.session_totals state.session_gamemodes in
    elim (Bool-cases (is_in_session m state)) [
      | inl e ↦ rw e (pair_eq added.0 added.1)
      | inr e ↦ rw e (ground arith)
    ]

-- The match counts where it is kept.
results-keep_match :
    (keep is_current : Bool) (m : CapturedMatch) (winner : ℤ) (d : MatchEndDecision)
    (source : MatchFinalizeSource) (enqueue : Bool) (ctx : ReducerContext)
    (r : MatchState × SideEffects)
    → r.1.save ≡ none
    → let r' = keep_match keep is_current m winner d source enqueue ctx r in
      (is_some r'.1.save ≡ keep)
      × (results r'.0 ≡ results_with (keep && is_in_session m r.0) d.i_won r.0)
unfolding request_save
results-keep_match true is_current m winner d source enqueue ctx r n =
    let saved = save_counted m winner d source enqueue ctx (count_match m d.i_won r) in
    (
      ap is_some (guids-leave_match is_current saved).1,
      results-leave_match is_current saved ∙ results-count_match m d.i_won r,
    )
results-keep_match false is_current m winner d source enqueue ctx r n =
    (ap is_some ((guids-leave_match is_current r).1 ∙ n), results-leave_match is_current r)

results_with-congr :
    (counts i_won : Bool) (s t : MatchState)
    → results s ≡ results t
    → results_with counts i_won s ≡ results_with counts i_won t
results_with-congr counts i_won s t h =
    pair_eq (ap (plus_if (counts && i_won)) (ap (λ x. x.0) h))
      (ap (plus_if (counts && not i_won)) (ap (λ x. x.1) h))

results-conclude :
    (is_current : Bool) (m : CapturedMatch) (winner : ℤ) (d : MatchEndDecision)
    (source : MatchFinalizeSource) (enqueue : Bool) (ctx : ReducerContext)
    (r : MatchState × SideEffects)
    → r.1.save ≡ none
    → let r' = conclude is_current m winner d source enqueue ctx r in
      (is_some r'.1.save ≡ d.should_persist)
      × (results r'.0 ≡ results_with (is_some r'.1.save && is_in_session m r.0) d.i_won r.0)
unfolding conclude
results-conclude is_current m winner d source enqueue ctx r n =
    let shown = show_if_current is_current m winner d ctx r in
    let s = results-show is_current m winner d ctx r in
    let k =
      results-keep_match d.should_persist is_current m winner d source enqueue ctx shown
        (s.2 ∙ n) in
    let counts : (d.should_persist && is_in_session m shown.0) ≡ (
        is_some (conclude is_current m winner d source enqueue ctx r).1.save
        && is_in_session m r.0) =
      rw (k.0, s.1) refl in
    (
      k.0,
      k.1
          ∙ ap (λ c. results_with c d.i_won shown.0) counts
          ∙ results_with-congr _ d.i_won shown.0 r.0 s.0,
    )

-- A match that is kept is a win exactly where the winner is the local team.
kept_won :
    (m : CapturedMatch) (winner : ℤ) (counts : Bool) (state : MatchState)
    → let d = classify_match_end m winner in
      results_with (d.should_persist && counts) d.i_won state
      ≡ results_with (d.should_persist && counts) (eqb_ℤ winner m.my_team) state
kept_won m winner counts state = elim (classify_match_end_lem m winner).1 [
  | inl e ↦ rw e refl
  | inr e ↦
      (let void : (classify_match_end m winner).should_persist ≡ false =
          ap (λ d. d.should_persist) e in
        rw void refl)
]

recorded_session :
    (m : CapturedMatch) (guid : String) (state : MatchState)
    → (is_in_session m (record_terminal_match_guid guid state) ≡ is_in_session m state)
      × (results (record_terminal_match_guid guid state) ≡ results state)
unfolding record_terminal_match_guid
recorded_session m guid state = elim (Bool-cases (str_eq guid "")) [
  | inl e ↦ rw e (refl, refl)
  | inr e ↦ rw e (refl, refl)
]

-- `FinalizeCapturedMatch` asks for a save exactly when the guid of the match was not finalized before
-- (or is empty) and `ClassifyMatchEnd` keeps the match. The wins of the session rise by one exactly
-- when there is a save, the match was captured in the current session and its winner is the local
-- team; the losses rise by one exactly when there is a save of the current session with another
-- winner. Both are otherwise unchanged.
pub finalize_captured_match-results :
    (m : CapturedMatch) (winner : ℤ) (source : MatchFinalizeSource) (enqueue : Bool)
    (ctx : ReducerContext) (state : MatchState) (effects : SideEffects)
    → effects.save ≡ none
    → let r = finalize_captured_match m winner source enqueue ctx (state, effects) in
      (is_some r.1.save ≡ (
        not (not (str_eq m.match_guid "") && is_finalized_guid state m.match_guid)
        && (classify_match_end m winner).should_persist))
      × (results r.0
          ≡ results_with (is_some r.1.save && is_in_session m state) (eqb_ℤ winner m.my_team) state)
unfolding finalize_captured_match
finalize_captured_match-results m winner source enqueue ctx state effects n =
    let recorded = record_terminal_match_guid m.match_guid state in
    let d = classify_match_end m winner in
    let c =
      results-conclude (is_current_match recorded m) m winner d source enqueue ctx
        (recorded, effects) n in
    let same = recorded_session m m.match_guid state in
    elim (Bool-cases (not (str_eq m.match_guid "") && is_finalized_guid state m.match_guid)) [
      | inl h ↦ rw h (ap is_some n, rw n refl)
      | inr h ↦ rw h (
        c.0,
        c.1
            ∙ ap (λ b. results_with (b && is_in_session m recorded) d.i_won recorded) c.0
            ∙ kept_won m winner (is_in_session m recorded) recorded
            ∙ results_with-congr _ (eqb_ℤ winner m.my_team) recorded state same.1
            ∙ rw (c.0, same.0) refl,
      )
    ]

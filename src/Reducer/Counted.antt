-- ===== src/Reducer/Counted.antt =====
-- The handlers of src/core/reducer/TelemetryReducerStats.cpp leave alone what Reducer/Frame names, and
-- keep the counts of the local player below those of the match.
use omni_stats.Prelude.{
  ◌≡◌, refl, ◌∙◌, String, Bool, true, false, ◌||◌, arith, str_eq, if◌then◌else◌,
}
use omni_stats.Prelude.Int.{ℤ, pos, ◌+ℤ◌, ◌≤ℤ◌, +ℤ_parts}
use omni_stats.Matches.{MatchState, MatchStats}
use omni_stats.Reducer.Types.{SideEffects, ReducerContext}
use omni_stats.Reducer.Effects.{event_now_ms, push_discord}
use omni_stats.Reducer.Guids.{accepts_ui_match_event}
use omni_stats.Reducer.Stats.{
  PlayerRef, StatfeedEvent, GoalScoredEvent, handle_statfeed, handle_goal_scored,
  handle_crossbar_hit, note_goal, score_unless, count_goal, count_save, count_shot,
  count_demolition, count_own_goal, count_assist, is_stale_goal, plus_one_if,
}
use omni_stats.Reducer.Frame.{kept_all, Untouched, accepts-Untouched}

module _ (P : MatchState → Type 0) where
  either : (b : Bool) (s t : MatchState) → P s → P t → P (if b then s else t)
  either true s t h k = h
  either false s t h k = k

  -- The ways in which a statfeed event is counted.
  handle_statfeed_cases :
      (ev : StatfeedEvent) (state : MatchState)
      → P state
      → ((self : Bool) (id : String) → P (count_save self id state))
      → ((self : Bool) (id : String) → P (count_shot self id state))
      → ((self is_victim : Bool) (id victim : String)
          → P (count_demolition self is_victim id victim state))
      → ((self : Bool) → P (count_own_goal self state))
      → ((self : Bool) (id : String) → P (count_assist self id state))
      → P (handle_statfeed ev state)
  unfolding handle_statfeed
  handle_statfeed_cases ev state same save shot demolition own_goal assist =
      let name = ev.event_name in
      either state.in_replay _ _ same (
        either (str_eq name "Save" || str_eq name "EpicSave" || str_eq name "Epic Save") _ _
          (save _ _)
          (either (str_eq name "Shot") _ _ (shot _ _) (
            either (str_eq name "Demolish") _ _ (demolition _ _ _ _) (
              either (str_eq name "OwnGoal") _ _ (own_goal _)
                (either (str_eq name "Assist") _ _ (assist _ _) same)))))

pub kept-handle_statfeed :
    (ev : StatfeedEvent) (state : MatchState) (effects : SideEffects)
    → kept_all (handle_statfeed ev state, effects) ≡ kept_all (state, effects)
unfolding kept_all
kept-handle_statfeed ev state effects =
    handle_statfeed_cases (λ s. kept_all (s, effects) ≡ kept_all (state, effects)) ev state refl
      (λ self id. refl) (λ self id. refl) (λ self v id w. refl) (λ self. refl) (λ self id. refl)

pub kept-handle_crossbar_hit :
    (last_touch : PlayerRef) (state : MatchState) (effects : SideEffects)
    → kept_all (handle_crossbar_hit last_touch state, effects) ≡ kept_all (state, effects)
unfolding kept_all handle_crossbar_hit
kept-handle_crossbar_hit last_touch state effects = refl

kept-note_goal :
    (now_ms : ℤ) (t : Bool × MatchState × SideEffects) (r : MatchState × SideEffects)
    → Untouched t r
    → kept_all (note_goal now_ms t) ≡ kept_all r
unfolding Untouched kept_all
kept-note_goal now_ms (true, state, effects) r h = h
kept-note_goal now_ms (false, state, effects) r h = h

kept-score_unless :
    (b : Bool) (ev : GoalScoredEvent) (r : MatchState × SideEffects)
    → kept_all (score_unless b ev r) ≡ kept_all r
unfolding kept_all count_goal push_discord
kept-score_unless true ev r = refl
kept-score_unless false ev r = refl

kept-if :
    (b : Bool) (r s t : MatchState × SideEffects)
    → kept_all s ≡ kept_all r
    → kept_all t ≡ kept_all r
    → kept_all (if b then s else t) ≡ kept_all r
kept-if true r s t h k = h
kept-if false r s t h k = k

pub kept-handle_goal_scored :
    (ev : GoalScoredEvent) (ctx : ReducerContext) (r : MatchState × SideEffects)
    → kept_all (handle_goal_scored ev ctx r) ≡ kept_all r
unfolding handle_goal_scored
kept-handle_goal_scored ev ctx (state, effects) =
    let now_ms = event_now_ms ctx in
    let test = accepts_ui_match_event state ev.match_guid now_ms effects in
    let noted = note_goal now_ms test in
    kept-if (ev.is_echo || state.in_replay) (state, effects) (state, effects) _ refl
      (kept-score_unless (is_stale_goal noted.0 ev.match_guid) ev noted
        ∙ kept-note_goal now_ms test (state, effects)
            (accepts-Untouched state ev.match_guid now_ms effects))

-- No count of the local player is above that of the match.
abbrev pub IsWithin : MatchStats → Type 0
IsWithin stats =
    (stats.goals_self ≤ℤ stats.goals)
    × (stats.saves_self ≤ℤ stats.saves)
    × (stats.shots_self ≤ℤ stats.shots)
    × (stats.demos_self ≤ℤ stats.demos)
    × (stats.demoed_self ≤ℤ stats.demos)
    × (stats.assists_self ≤ℤ stats.assists)
    × (stats.crossbars_self ≤ℤ stats.crossbars)
    × (stats.own_goals_self ≤ℤ stats.own_goals)

one_more : (b : Bool) (part all : ℤ) → part ≤ℤ all → plus_one_if b part ≤ℤ (all +ℤ pos 1)
one_more true part all h = omega (arith, +ℤ_parts part (pos 1), +ℤ_parts all (pos 1), h)
one_more false part all h = omega (arith, +ℤ_parts all (pos 1), h)

-- A statfeed event, a goal or a crossbar hit that is counted keeps the goals, saves, shots,
-- demolitions, assists, crossbars and own goals of the local player within those of the match, and
-- the demolitions that the local player suffered within all demolitions.
pub counted-IsWithin :
    (ev : StatfeedEvent) (goal : GoalScoredEvent) (last_touch : PlayerRef) (state : MatchState)
    (effects : SideEffects)
    → IsWithin state.current_match
    → IsWithin (handle_statfeed ev state).current_match
      × IsWithin (count_goal goal (state, effects)).0.current_match
      × IsWithin (handle_crossbar_hit last_touch state).current_match
unfolding count_goal handle_crossbar_hit
counted-IsWithin ev goal last_touch state effects (g, s, h, d, v, a, c, o) = (
  handle_statfeed_cases (λ t. IsWithin t.current_match) ev state (g, s, h, d, v, a, c, o)
      (λ self id. (g, one_more self _ _ s, h, d, v, a, c, o))
      (λ self id. (g, s, one_more self _ _ h, d, v, a, c, o))
      (λ self w id victim. (g, s, h, one_more self _ _ d, one_more w _ _ v, a, c, o))
      (λ self. (g, s, h, d, v, a, c, one_more self _ _ o))
      (λ self id. (g, s, h, d, v, one_more self _ _ a, c, o)),
  (one_more _ _ _ g, s, h, d, v, a, c, o),
  (g, s, h, d, v, a, one_more _ _ _ c, o),
)

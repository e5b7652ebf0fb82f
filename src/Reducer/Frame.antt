-- ===== src/Reducer/Frame.antt =====
-- What every handler but the terminal ones of src/core/reducer leaves alone.
use omni_stats.Prelude.{
  ℕ, ◌≡◌, refl, ◌∙◌, ap, String, Bool, true, false, List, Option, arith, inl, inr, Option-cases,
  if◌then◌else◌, not, ◌&&◌, ◌||◌, str_eq,
}
use omni_stats.Prelude.Int.{ℤ}
use omni_stats.Matches.{MatchState, CapturedMatch, GamemodeStat, SessionRecap}
use omni_stats.Matches.Reset.{reset_timing, reset_match, clear_active_match_on_disconnect}
use omni_stats.Reducer.Types.{SideEffects, ReducerContext, MatchSaveSnapshot}
use omni_stats.Reducer.Effects.{event_now_ms, push_discord, publish_ui_timestamps}
use omni_stats.Reducer.Guids.{
  accepts_ui_match_event, targets_current_active_match_ui, attach_guid,
  attach_terminal_guid_to_current, capture_pre_match_mmr, on_telemetry_disconnected,
  is_finalized_guid, is_pending, is_other_match, is_other_ui_match,
}
use omni_stats.Reducer.Created.{enter_match, show_created, start_lifecycle, match_created, push_if}
use omni_stats.Reducer.Events.{
  replay_created, match_initialized, countdown_begin, round_started, match_paused, match_unpaused,
  goal_replay_start, goal_replay_end, podium_start, if_accepted, if_current,
}

-- What only the terminal events and the sessions write.
abbrev pub kept :
    MatchState
    → List String × List (String × CapturedMatch) × List (String × GamemodeStat) × SessionRecap
kept state = (
  state.finalized_match_guids, state.pending_destroyed_matches, state.session_gamemodes,
  state.last_session_recap,
)

abbrev pub Kept : Type 0
Kept = List String × List (String × CapturedMatch) × List (String × GamemodeStat) × SessionRecap × ℕ

-- The same, and the version of the snapshot.
abbrev pub kept_fields : MatchState → Kept
kept_fields state = (
  state.finalized_match_guids, state.pending_destroyed_matches, state.session_gamemodes,
  state.last_session_recap, state.version,
)

-- Nor is a save asked for.
unfoldable pub kept_all : MatchState × SideEffects → Kept × Option MatchSaveSnapshot
kept_all (state, effects) = (kept_fields state, effects.save)

kept-capture_pre_match_mmr :
    (state : MatchState) → kept_fields (capture_pre_match_mmr state) ≡ kept_fields state
unfolding capture_pre_match_mmr
kept-capture_pre_match_mmr state = ground arith

pub kept-attach_guid :
    (guid : String) (state : MatchState) → kept_fields (attach_guid guid state) ≡ kept_fields state
kept-attach_guid guid state = kept-capture_pre_match_mmr _

pub kept-attach_terminal :
    (guid : String) (state : MatchState)
    → kept_fields (attach_terminal_guid_to_current guid state) ≡ kept_fields state
unfolding attach_terminal_guid_to_current
kept-attach_terminal guid state = ground (arith, kept-attach_guid guid state)

pub kept-publish_ui_timestamps :
    (r : MatchState × SideEffects) → kept_all (publish_ui_timestamps r) ≡ kept_all r
unfolding kept_all publish_ui_timestamps
kept-publish_ui_timestamps r = refl

kept-enter_match :
    (guid : String) (ctx : ReducerContext) (r : MatchState × SideEffects)
    → kept_all (enter_match guid ctx r) ≡ kept_all r
unfolding kept_all enter_match start_lifecycle reset_match reset_timing
kept-enter_match guid ctx (state, effects) = ground (arith, kept-attach_guid guid state)

kept-show_created :
    (same restarts : Bool) (guid : String) (now_ms : ℤ) (r : MatchState × SideEffects)
    → kept_all (show_created same restarts guid now_ms r) ≡ kept_all r
unfolding kept_all
kept-show_created true restarts guid now_ms (state, effects) = ground arith
kept-show_created false true guid now_ms r = refl
kept-show_created false false guid now_ms r = refl

kept-push_if : (b : Bool) (r : MatchState × SideEffects) → kept_all (push_if b r) ≡ kept_all r
unfolding kept_all push_discord
kept-push_if true r = refl
kept-push_if false r = refl

pub kept-match_created :
    (guid : String) (ctx : ReducerContext) (r : MatchState × SideEffects)
    → kept_all (match_created guid ctx r) ≡ kept_all r
unfolding match_created
kept-match_created guid ctx (state, effects) =
    kept-push_if _ _ ∙ kept-show_created _ _ guid _ _ ∙ kept-enter_match guid ctx (state, effects)

-- What a test of the overlay leaves.
unfoldable pub Untouched : Bool × MatchState × SideEffects → MatchState × SideEffects → Type 0
Untouched (taken, state, effects) r = kept_all (state, effects) ≡ kept_all r

untouched :
    (b : Bool) (s : MatchState) (e : SideEffects) (r : MatchState × SideEffects)
    → kept_all (s, e) ≡ kept_all r
    → Untouched (b, s, e) r
unfolding Untouched
untouched b s e r h = h

if-Untouched :
    (b : Bool) (s t : Bool × MatchState × SideEffects) (r : MatchState × SideEffects)
    → Untouched s r
    → Untouched t r
    → Untouched (if b then s else t) r
if-Untouched true s t r h k = h
if-Untouched false s t r h k = k

pub accepts-Untouched :
    (state : MatchState) (guid : String) (now_ms : ℤ) (effects : SideEffects)
    → Untouched (accepts_ui_match_event state guid now_ms effects) (state, effects)
unfolding accepts_ui_match_event kept_all
accepts-Untouched state guid now_ms effects =
    let same = (λ (b : Bool). untouched b state effects (state, effects) refl) in
    if-Untouched state.non_live_replay_active _ _ _ (same false) (
      if-Untouched (str_eq guid "") _ _ _ (same (not state.match_finalized)) (
        if-Untouched (is_finalized_guid state guid || is_pending state guid) _ _ _ (same false) (
          if-Untouched (state.in_match && not state.match_finalized && is_other_match state guid) _
            _ _ (same false)
            (if-Untouched (is_other_ui_match state guid || state.match_finalized) _ _ _
              (untouched true _ _ _ refl) (untouched true _ _ _ refl)))))

kept-if_accepted :
    (t : Bool × MatchState × SideEffects) (r : MatchState × SideEffects)
    (f : MatchState × SideEffects → MatchState × SideEffects)
    → Untouched t r
    → ((q : MatchState × SideEffects) → kept_all (f q) ≡ kept_all q)
    → kept_all (if_accepted t f) ≡ kept_all r
unfolding Untouched
kept-if_accepted (true, state, effects) r f h k = k (state, effects) ∙ h
kept-if_accepted (false, state, effects) r f h k = h

pub kept-match_initialized :
    (guid : String) (ctx : ReducerContext) (r : MatchState × SideEffects)
    → kept_all (match_initialized guid ctx r) ≡ kept_all r
unfolding kept_all match_initialized
kept-match_initialized guid ctx (state, effects) =
    kept-if_accepted _ (state, effects) _ (accepts-Untouched state guid (event_now_ms ctx) effects)
      (λ q. refl)

pub kept-countdown_begin :
    (guid : String) (ctx : ReducerContext) (r : MatchState × SideEffects)
    → kept_all (countdown_begin guid ctx r) ≡ kept_all r
unfolding kept_all countdown_begin
kept-countdown_begin guid ctx (state, effects) =
    kept-if_accepted _ (state, effects) _ (accepts-Untouched state guid (event_now_ms ctx) effects)
      (λ q. refl)

pub kept-round_started :
    (guid : String) (ctx : ReducerContext) (r : MatchState × SideEffects)
    → kept_all (round_started guid ctx r) ≡ kept_all r
unfolding kept_all round_started
kept-round_started guid ctx (state, effects) =
    kept-if_accepted _ (state, effects) _ (accepts-Untouched state guid (event_now_ms ctx) effects)
      (λ q. refl)

pub kept-replay_created : (r : MatchState × SideEffects) → kept_all (replay_created r) ≡ kept_all r
unfolding kept_all replay_created
kept-replay_created r = refl

pub kept-pauses :
    (ctx : ReducerContext) (r : MatchState × SideEffects)
    → (kept_all (match_paused ctx r) ≡ kept_all r) × (kept_all (match_unpaused ctx r) ≡ kept_all r)
unfolding kept_all match_paused match_unpaused
kept-pauses ctx (state, effects) = elim (Option-cases state.current_pause_start_ms) [
  | inl e ↦ rw e (refl, refl)
  | inr (start, e) ↦ rw e (refl, refl)
]

targets-Untouched :
    (state : MatchState) (guid : String)
    → kept_fields (targets_current_active_match_ui state guid).1 ≡ kept_fields state
unfolding targets_current_active_match_ui
targets-Untouched state guid = ground arith

kept-if_current :
    (t : Bool × MatchState) (state : MatchState) (f : MatchState → MatchState)
    → kept_fields t.1 ≡ kept_fields state
    → ((s : MatchState) → kept_fields (f s) ≡ kept_fields s)
    → kept_fields (if_current t f) ≡ kept_fields state
kept-if_current (true, s) state f h k = k s ∙ h
kept-if_current (false, s) state f h k = h

pub kept-goal_replay_start :
    (guid : String) (r : MatchState × SideEffects)
    → kept_all (goal_replay_start guid r) ≡ kept_all r
unfolding kept_all goal_replay_start
kept-goal_replay_start guid (state, effects) =
    ap (λ k. (k, effects.save))
      (kept-if_current _ state _ (targets-Untouched state guid) (λ s. refl))

pub kept-goal_replay_end :
    (guid : String) (r : MatchState × SideEffects) → kept_all (goal_replay_end guid r) ≡ kept_all r
unfolding kept_all goal_replay_end
kept-goal_replay_end guid (state, effects) = ground arith

pub kept-podium_start :
    (guid : String) (ctx : ReducerContext) (r : MatchState × SideEffects)
    → kept_all (podium_start guid ctx r) ≡ kept_all r
unfolding kept_all podium_start
kept-podium_start guid ctx (state, effects) =
    ap (λ k. (k, effects.save))
      (kept-if_current _ state _ (targets-Untouched state guid) (λ s. refl))

pub kept-on_telemetry_disconnected :
    (state : MatchState) → kept_fields (on_telemetry_disconnected state) ≡ kept_fields state
unfolding on_telemetry_disconnected
kept-on_telemetry_disconnected state = ground arith

pub kept-clear_active_match_on_disconnect :
    (state : MatchState) → kept_fields (clear_active_match_on_disconnect state) ≡ kept_fields state
unfolding clear_active_match_on_disconnect
kept-clear_active_match_on_disconnect state = refl

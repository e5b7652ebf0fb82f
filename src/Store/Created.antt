-- ===== src/Store/Created.antt =====
-- What becomes of the closing of an inactive session that `MatchCreatedEvent` asks for: StatsClient.cpp
-- of src/network/api applies the event and then routes its effects, and src/core/effects/EffectRouter.cpp
-- calls `CloseSessionIfInactive` for this one.
use omni_stats.Prelude.{
  ◌≡◌, refl, ◌∙◌, sym, ap, String, Bool, true, false, Option, arith, inl, inr, Bool-cases, is_some,
}
use omni_stats.Prelude.Int.{ℤ}
use omni_stats.Matches.{MatchState}
use omni_stats.Matches.Reset.{History, reset_match, reset_timing}
use omni_stats.Reducer.Types.{SideEffects, no_effects, ReducerContext}
use omni_stats.Reducer.Effects.{push_discord, publish_ui_timestamps}
use omni_stats.Reducer.Created.{
  starts_new_lifecycle, attaches_guid, start_lifecycle, enter_match, show_created, match_created,
  push_if,
}
use omni_stats.Reducer.Events.{TelemetryEvent, visit, reduce}
use omni_stats.Store.{close_session_if_inactive}

unfoldable closing : MatchState × SideEffects → Bool × Option ℤ
closing (state, effects) = (state.in_match, effects.close_session_if_inactive_at_unix)

closing-push_if : (b : Bool) (r : MatchState × SideEffects) → closing (push_if b r) ≡ closing r
unfolding closing push_discord
closing-push_if true r = refl
closing-push_if false r = refl

closing-show_created :
    (same restarts : Bool) (guid : String) (now_ms : ℤ) (r : MatchState × SideEffects)
    → closing (show_created same restarts guid now_ms r) ≡ closing r
unfolding closing
closing-show_created true restarts guid now_ms (state, effects) = ground arith
closing-show_created false true guid now_ms r = refl
closing-show_created false false guid now_ms r = refl

closing-publish : (r : MatchState × SideEffects) → closing (publish_ui_timestamps r) ≡ closing r
unfolding closing publish_ui_timestamps
closing-publish r = refl

-- Where the closing is asked for, a match has just begun.
entered :
    (guid : String) (ctx : ReducerContext) (state : MatchState)
    → is_some (closing (enter_match guid ctx (state, no_effects))).1 ≡ true
    → (closing (enter_match guid ctx (state, no_effects))).0 ≡ true
unfolding closing enter_match start_lifecycle reset_match reset_timing
entered guid ctx state h = elim (Bool-cases (starts_new_lifecycle state guid)) [
  | inl e ↦ rw e refl
  | inr e ↦ elim (Bool-cases (attaches_guid state guid)) [
    | inl a ↦ (let bad : false ≡ true = rw (e, a) at h in ground (arith, bad))
    | inr a ↦ (let bad : false ≡ true = rw (e, a) at h in ground (arith, bad))
  ]
]

closing-reduce :
    (guid : String) (ctx : ReducerContext) (state : MatchState) (now_ms : ℤ)
    → let s = record state { current_reducer_now_ms = now_ms } in
      closing (publish_ui_timestamps (match_created guid ctx (s, no_effects)))
      ≡ closing (enter_match guid ctx (s, no_effects))
unfolding match_created
closing-reduce guid ctx state now_ms =
    closing-publish _ ∙ closing-push_if _ _ ∙ closing-show_created _ _ guid _ _

in_match-stays :
    (now : ℤ) (history : History) (state : MatchState)
    → state.in_match ≡ true
    → close_session_if_inactive now history state ≡ (state, false)
unfolding close_session_if_inactive
in_match-stays now history state h = simp h refl

-- When a created match asks that an inactive session be closed, the session is never closed: the event
-- has already made the match active when `CloseSessionIfInactive` looks at the state that it left, at
-- whatever time and however long ago the last match ended.
pub match_created-close_session :
    (guid : String) (ctx : ReducerContext) (state : MatchState) (now : ℤ) (history : History)
    → is_some
        (reduce
          (TelemetryEvent.match_created_event guid)
          ctx
          state).1.close_session_if_inactive_at_unix
      ≡ true
    → let after = (reduce (TelemetryEvent.match_created_event guid) ctx state).0 in
      close_session_if_inactive now history after ≡ (after, false)
unfolding reduce visit closing
match_created-close_session guid ctx state now history h =
    let c = closing-reduce guid ctx state _ in
    in_match-stays now history _
      (ap (λ x. x.0) c ∙ entered guid ctx _ (sym (ap (λ x. is_some x.1) c) ∙ h))

-- ===== src/Reducer/Created.antt =====
-- `MatchCreatedEvent` in `ReduceInPlace` of src/core/reducer/TelemetryReducer.cpp: a new match, or the
-- guid of the current one.
use omni_stats.Prelude.{
  ◌+◌, ◌%◌, ◌^◌, String, Bool, true, false, ◌&&◌, ◌||◌, not, List, [], Option, none, some, str_eq,
  if◌then◌else◌, is_empty,
}
use omni_stats.Prelude.Int.{ℤ, pos, ltb_ℤ, leb_ℤ}
use omni_stats.Prelude.Maps.{lookup}
use omni_stats.Playlists
use omni_stats.Playlists.{MmrCategory}
use omni_stats.Matches.{MatchState, LocalPreMatchMmrSnapshot}
use omni_stats.Matches.Reset.{reset_timing, reset_match}
use omni_stats.Reducer.Types.{ReducerContext, SideEffects, UiStateUpdate, no_update}
use omni_stats.Reducer.Effects.{event_now_ms, push_discord}
use omni_stats.Reducer.Guids.{
  attach_guid, restart_ui, ask_restart, emplace, is_other_match, is_other_ui_match, ratings_of,
}

abbrev pub ask_ui : UiStateUpdate → SideEffects → SideEffects
ask_ui ui effects = record effects { ui_update = some ui }

-- The current match is one that is not recorded.
abbrev pub is_non_recordable_match : MatchState → Bool
is_non_recordable_match state =
    state.in_match
    && (state.fallback_non_recordable_context || Playlists.is_non_recordable state.playlist_id)

unfoldable pub starts_new_lifecycle : MatchState → String → Bool
starts_new_lifecycle state incoming_guid =
    not state.in_match
    || (not (str_eq incoming_guid "") && is_non_recordable_match state)
    || (not (str_eq incoming_guid "") && is_other_match state incoming_guid)

unfoldable pub attaches_guid : MatchState → String → Bool
attaches_guid state incoming_guid =
    state.in_match
    && not (str_eq incoming_guid "")
    && str_eq state.match_guid ""
    && not (is_non_recordable_match state)

-- The ratings of the local player, where they are known.
abbrev pub initial_mmr : MatchState → Option LocalPreMatchMmrSnapshot
initial_mmr state =
    if str_eq state.my_primary_id "" then none else elim (lookup state.my_primary_id state.roster) [
      | none ↦ none
      | some player ↦ if is_empty player.playlists then none else some (ratings_of player)
    ]

abbrev pub with_initial_mmr :
    Option LocalPreMatchMmrSnapshot
    → String
    → List (String × LocalPreMatchMmrSnapshot)
    → List (String × LocalPreMatchMmrSnapshot)
with_initial_mmr none guid m = m
with_initial_mmr (some snapshot) guid m = emplace guid snapshot m

unfoldable pub start_lifecycle : String → MatchState → MatchState
start_lifecycle incoming_guid state =
    let reset = reset_match state.arena_name [] state in
    let generation = (state.next_match_generation + 1) % 2 ^ 64 in
    reset_timing (record reset {
      next_match_generation = generation;
      active_match_generation = generation;
      match_guid = incoming_guid;
      missing_guid_association_blocked_by_reconnect = false;
      pre_match_mmr_by_guid =
          with_initial_mmr (initial_mmr state) incoming_guid reset.pre_match_mmr_by_guid;
      round_active = false;
      auto_switched_playlist_category = MmrCategory.best;
      followed_graph_playlist_category = MmrCategory.best;
      last_player_boost = [];
      boost_respawn_pending = [];
      last_player_seen_ms = [];
    })

-- The state after the two first branches, and the session to close.
unfoldable pub enter_match :
    String → ReducerContext → MatchState × SideEffects → MatchState × SideEffects
enter_match incoming_guid ctx (state, effects) =
    if starts_new_lifecycle state incoming_guid
    then (
      start_lifecycle incoming_guid state,
      record effects {
        close_session_if_inactive_at_unix =
            if ctx.config.reset_session_on_close
            then effects.close_session_if_inactive_at_unix
            else some ctx.now_unix;
      },
    )
    else if attaches_guid state incoming_guid
    then (attach_guid incoming_guid state, effects)
    else (state, effects)

-- The overlay's part, by what held before: whether the match is the one shown, and whether the clocks
-- start over.
abbrev pub show_created :
    Bool → Bool → String → ℤ → MatchState × SideEffects → MatchState × SideEffects
show_created true restarts incoming_guid now_ms (state, effects) =
    if leb_ℤ state.last_match_start_ms (pos 0)
    then (
      record state { last_match_start_ms = now_ms; in_goal_replay = false },
      ask_ui (record no_update { last_match_start_ms = some now_ms; in_goal_replay = some false })
          effects,
    )
    else (
      record state { in_goal_replay = false },
      ask_ui (record no_update { in_goal_replay = some false }) effects,
    )
show_created false true incoming_guid now_ms (state, effects) =
    (record (restart_ui now_ms state) { ui_match_guid = incoming_guid }, ask_restart now_ms effects)
show_created false false incoming_guid now_ms (state, effects) = (
  record state {
    last_match_start_ms = now_ms;
    in_goal_replay = false;
    ui_match_guid = incoming_guid;
  },
  ask_ui (record no_update { last_match_start_ms = some now_ms; in_goal_replay = some false })
      effects,
)

abbrev pub push_if : Bool → MatchState × SideEffects → MatchState × SideEffects
push_if true (state, effects) = (state, push_discord state effects)
push_if false r = r

unfoldable pub match_created :
    String → ReducerContext → MatchState × SideEffects → MatchState × SideEffects
match_created incoming_guid ctx (state, effects) =
    let starts = starts_new_lifecycle state incoming_guid in
    let is_same_active_ui_guid =
      not (str_eq incoming_guid "")
      && str_eq incoming_guid state.ui_match_guid
      && state.in_match
      && not state.match_finalized in
    let restarts =
      starts
      || state.match_finalized
      || ltb_ℤ (pos 0) state.first_countdown_of_match_ms
      || ltb_ℤ (pos 0) state.last_match_end_ms
      || (not (str_eq incoming_guid "") && is_other_ui_match state incoming_guid) in
    push_if (starts || attaches_guid state incoming_guid) (
      show_created is_same_active_ui_guid restarts incoming_guid (event_now_ms ctx)
        (enter_match incoming_guid ctx (state, effects)))

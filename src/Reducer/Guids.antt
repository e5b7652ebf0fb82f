-- ===== src/Reducer/Guids.antt =====
-- Which match an event is about: src/core/reducer/TelemetryReducer.cpp (the guards of the events that
-- only the overlay shows), TelemetryReducerUpdateState.cpp (`CapturePreMatchMmr` and
-- `AttachTerminalGuidToCurrent`), and `RecordTerminalMatchGuid` of TelemetryReducerFinalize.cpp.
use omni_stats.Prelude.{
  String, Bool, true, false, ◌&&◌, ◌||◌, not, List, [], ◌∷◌, ◌++◌, none, some, str_eq,
  if◌then◌else◌, is_empty, is_some, any_of,
}
use omni_stats.Prelude.Int.{ℤ, pos, ltb_ℤ}
use omni_stats.Prelude.Maps.{member, insert_key, lookup, insert, erase}
use omni_stats.Matches.{MatchState, PlayerData, LocalPreMatchMmrSnapshot}
use omni_stats.Reducer.Types.{SideEffects, no_update}
use omni_stats.Reducer.Effects.{is_unknown_player}

-- `emplace(k, v)`, which leaves a present key alone.
abbrev pub emplace {ℓ} : {V : Type ℓ} → String → V → List (String × V) → List (String × V)
emplace k v m = if is_some (lookup k m) then m else insert k v m

abbrev pub is_pending : MatchState → String → Bool
is_pending state guid = is_some (lookup guid state.pending_destroyed_matches)

abbrev pub is_finalized_guid : MatchState → String → Bool
is_finalized_guid state guid = member guid state.finalized_match_guids

abbrev pub is_other_ui_match : MatchState → String → Bool
is_other_ui_match state incoming_guid =
    not (str_eq state.ui_match_guid "") && not (str_eq incoming_guid state.ui_match_guid)

abbrev pub is_other_match : MatchState → String → Bool
is_other_match state incoming_guid =
    not (str_eq state.match_guid "") && not (str_eq incoming_guid state.match_guid)

-- The overlay starts over for another match.
abbrev pub restart_ui : ℤ → MatchState → MatchState
restart_ui now_ms state = record state {
  last_match_start_ms = now_ms;
  first_countdown_of_match_ms = pos 0;
  last_countdown_ms = pos 0;
  last_goal_ms = pos 0;
  last_match_end_ms = pos 0;
  last_podium_ms = pos 0;
  in_goal_replay = false;
  countdown_seen_this_round = false;
}

abbrev pub ask_restart : ℤ → SideEffects → SideEffects
ask_restart now_ms effects = record effects {
  ui_update = some (record no_update { reset_timestamps = true; reset_match_start_ms = now_ms });
}

unfoldable pub accepts_ui_match_event :
    MatchState → String → ℤ → SideEffects → Bool × MatchState × SideEffects
accepts_ui_match_event state incoming_guid now_ms effects =
    if state.non_live_replay_active
    then (false, state, effects)
    else if str_eq incoming_guid ""
    then (not state.match_finalized, state, effects)
    else if is_finalized_guid state incoming_guid || is_pending state incoming_guid
    then (false, state, effects)
    else if state.in_match && not state.match_finalized && is_other_match state incoming_guid
    then (false, state, effects)
    else if is_other_ui_match state incoming_guid || state.match_finalized
    then (
      true,
      record (restart_ui now_ms state) { ui_match_guid = incoming_guid },
      ask_restart now_ms effects,
    )
    else (true, record state { ui_match_guid = incoming_guid }, effects)

unfoldable pub targets_current_active_match_ui : MatchState → String → Bool × MatchState
targets_current_active_match_ui state incoming_guid =
    if not state.in_match || state.non_live_replay_active
    then (false, state)
    else if str_eq incoming_guid ""
    then (
      is_empty state.pending_destroyed_matches
          && not state.missing_guid_association_blocked_by_reconnect,
      state,
    )
    else if is_other_match state incoming_guid
        || is_other_ui_match state incoming_guid
        || is_pending state incoming_guid
    then (false, state)
    else if str_eq state.match_guid ""
        && str_eq state.ui_match_guid ""
        && is_finalized_guid state incoming_guid
    then (false, state)
    else if str_eq state.ui_match_guid ""
    then (true, record state { ui_match_guid = incoming_guid })
    else (true, state)

abbrev forget_lifetime : PlayerData → PlayerData
forget_lifetime player = record player {
  lifetime_wins_with = pos 0;
  lifetime_losses_with = pos 0;
  lifetime_wins_against = pos 0;
  lifetime_losses_against = pos 0;
  has_lifetime_data = false;
}

abbrev forget_all : List (String × PlayerData) → List (String × PlayerData)
forget_all [] = []
forget_all ((pid, player) ∷ rest) = (pid, forget_lifetime player) ∷ forget_all rest

abbrev known_players : List (String × PlayerData) → List String
known_players [] = []
known_players ((pid, player) ∷ rest) =
    let others = known_players rest in if is_unknown_player pid then others else pid ∷ others

unfoldable pub requeue_encounter_records : MatchState → SideEffects → MatchState × SideEffects
requeue_encounter_records state effects = (
  record state { roster = forget_all state.roster },
  record effects {
    fetch_encounter_queue = effects.fetch_encounter_queue ++ known_players state.roster;
  },
)

unfoldable pub on_telemetry_disconnected : MatchState → MatchState
on_telemetry_disconnected state =
    if state.in_match && not state.match_finalized
    then record state { missing_guid_association_blocked_by_reconnect = true }
    else state

abbrev has_positive : String × ℤ → Bool
has_positive (playlist, mmr) = ltb_ℤ (pos 0) mmr

abbrev pub ratings_of : PlayerData → LocalPreMatchMmrSnapshot
ratings_of player = record {
  playlist_mmrs = player.playlists;
  playlist_matches = player.playlist_matches;
}

unfoldable pub capture_pre_match_mmr : MatchState → MatchState
capture_pre_match_mmr state =
    if str_eq state.match_guid ""
      || is_some (lookup state.match_guid state.pre_match_mmr_by_guid)
      || str_eq state.my_primary_id ""
    then state
    else elim (lookup state.my_primary_id state.roster) [
      | none ↦ state
      | some player ↦
          if any_of has_positive player.playlists
          then record state {
            pre_match_mmr_by_guid =
                emplace state.match_guid (ratings_of player) state.pre_match_mmr_by_guid;
          }
          else state
    ]

-- `extract("")` and `insert` under the guid.
abbrev pub move_guidless :
    String → List (String × LocalPreMatchMmrSnapshot) → List (String × LocalPreMatchMmrSnapshot)
move_guidless guid m = elim (lookup "" m) [
  | none ↦ m
  | some snapshot ↦ emplace guid snapshot (erase "" m)
]

-- The match becomes the one with this guid.
abbrev pub attach_guid : String → MatchState → MatchState
attach_guid guid state = capture_pre_match_mmr (record state {
  pre_match_mmr_by_guid = move_guidless guid state.pre_match_mmr_by_guid;
  match_guid = guid;
})

-- The result, which no caller reads, is left out.
unfoldable pub attach_terminal_guid_to_current : String → MatchState → MatchState
attach_terminal_guid_to_current event_match_guid state =
    if str_eq event_match_guid ""
      || not state.in_match
      || state.match_finalized
      || not (str_eq state.match_guid "")
      || state.missing_guid_association_blocked_by_reconnect
      || is_finalized_guid state event_match_guid
      || is_pending state event_match_guid
    then state
    else attach_guid event_match_guid state

unfoldable pub record_terminal_match_guid : String → MatchState → MatchState
record_terminal_match_guid match_guid state =
    if str_eq match_guid ""
    then state
    else record state { finalized_match_guids = insert_key match_guid state.finalized_match_guids }

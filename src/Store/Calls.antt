-- ===== src/Store/Calls.antt =====
-- Sequences of calls of the methods of src/core/state/LiveMatchStore.cpp, each of which is a step of
-- Reducer/Runs and publishes its result.
use omni_stats.Prelude.{[], ◌∷◌, ◌+◌, ◌%◌, ◌^◌, ◌≡◌, String, Bool, List, Option, none}
use omni_stats.Prelude.Int.{ℤ}
use omni_stats.Matches.{MatchState}
use omni_stats.Matches.Reset.{History, start_new_session, clear_active_match_on_disconnect}
use omni_stats.Reducer.Types.{ReducerContext, MatchSaveSnapshot}
use omni_stats.Reducer.Guids.{on_telemetry_disconnected}
use omni_stats.Reducer.Events.{TelemetryEvent}
use omni_stats.Reducer.Runs.{Step, and_then}
use omni_stats.Store.{
  LiveMatchStore, publish_snapshot_locked, apply_event, confirm_destroyed_match,
  set_local_primary_id, update_roster_mmr, set_roster_fetch_failed, update_player_lifetime_data,
  close_session_if_inactive,
}

-- The methods that change the state, with their arguments.
pub data Call : Type 0 where
  apply_event_call : TelemetryEvent → ReducerContext → Call
  confirm_call : String → Bool → ReducerContext → Call
  disconnected_call clear_call : Call
  local_id_call failed_call : String → Call
  mmr_call : String → List (String × ℤ) → List (String × ℤ) → Call
  lifetime_call : String → String → ℤ × ℤ → ℤ × ℤ → Call
  new_session_call close_call : ℤ → History → Call

abbrev pub updated : MatchState → LiveMatchStore × Option MatchSaveSnapshot
updated state = (publish_snapshot_locked state, none)

-- The store after a call, and the save that the call asks for.
unfoldable pub call : Call → LiveMatchStore → LiveMatchStore × Option MatchSaveSnapshot
call (apply_event_call event ctx) store = let r = apply_event event ctx store in (r.0, r.1.save)
call (confirm_call guid won ctx) store =
    let r = confirm_destroyed_match guid won ctx store in (r.0, r.1.save)
call disconnected_call store = updated (on_telemetry_disconnected store.state)
call clear_call store = updated (clear_active_match_on_disconnect store.state)
call (local_id_call primary_id) store = updated (set_local_primary_id primary_id store.state)
call (failed_call primary_id) store = updated (set_roster_fetch_failed primary_id store.state)
call (mmr_call primary_id playlists playlist_matches) store =
    updated (update_roster_mmr primary_id playlists playlist_matches store.state)
call (lifetime_call account primary_id with_me against_me) store =
    updated (update_player_lifetime_data account primary_id with_me against_me store.state)
call (new_session_call ended history) store =
    updated (start_new_session ended history store.state).0
call (close_call now history) store = updated (close_session_if_inactive now history store.state).0

-- One step, which leaves the version alone, and whose result is published under the next version.
abbrev IsPublished : LiveMatchStore → LiveMatchStore × Option MatchSaveSnapshot → Type 0
IsPublished store (store', save) =
    (t : MatchState) × Step store.state save t
    × (t.version ≡ store.state.version)
    × (store'.state ≡ record t { version = (t.version + 1) % 2 ^ 64 })
    × (store'.snapshot ≡ store'.state)

-- The store after a sequence of calls, and the final saves that they ask for, in order.
unfoldable pub run_calls : List Call → LiveMatchStore → LiveMatchStore × List MatchSaveSnapshot
run_calls [] store = (store, [])
run_calls (c ∷ cs) store =
    let first = call c store in let rest = run_calls cs first.0 in (rest.0, and_then first.1 rest.1)

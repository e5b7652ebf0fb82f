-- ===== src/Store.antt =====
-- src/core/state/LiveMatchStore.cpp: the state of the reducer behind a mutex, and the snapshot that
-- readers get. `LiveMatchSnapshot` is a copy of the state. Each method holds the mutex for its body.
pub mod Sessions
pub mod Calls
pub mod Created
pub mod Ended
mod Examples
use omni_stats.Prelude.{
  ℕ, ◌+◌, ◌%◌, ◌^◌, String, Bool, true, false, ◌&&◌, ◌||◌, not, List, [], ◌∷◌, Option, none, some,
  str_eq, if◌then◌else◌, is_some, any_of,
}
use omni_stats.Prelude.Int.{ℤ, pos, negsuc, ◌-ℤ◌, ltb_ℤ, leb_ℤ}
use omni_stats.Prelude.Maps.{lookup, insert}
use omni_stats.Matches.{MatchState, PlayerData, LocalPreMatchMmrSnapshot}
use omni_stats.Matches.Reset.{
  History, start_new_session, clear_active_match_on_disconnect, games_played,
}
use omni_stats.Reducer.Types.{ReducerContext, SideEffects}
use omni_stats.Reducer.Guids.{emplace, on_telemetry_disconnected}
use omni_stats.Reducer.Terminal.{confirm_pending_destroyed_match}
use omni_stats.Reducer.Events.{TelemetryEvent, reduce}

pub record LiveMatchStore : Type 0 where
  pub state : MatchState
  pub snapshot : MatchState

-- `PublishSnapshotLocked`, after the state has changed.
unfoldable pub publish_snapshot_locked : MatchState → LiveMatchStore
publish_snapshot_locked state =
    let published = record state { version = (state.version + 1) % 2 ^ 64 } in
    record { state = published; snapshot = published }

abbrev pub new_store : MatchState → LiveMatchStore
new_store initial_state = record { state = initial_state; snapshot = initial_state }

abbrev pub with_result {ℓ} : {R : Type ℓ} → MatchState × R → LiveMatchStore × R
with_result (state, result) = (publish_snapshot_locked state, result)

unfoldable pub apply_event :
    TelemetryEvent → ReducerContext → LiveMatchStore → LiveMatchStore × SideEffects
apply_event event ctx store =
    let r = reduce event ctx store.state in (publish_snapshot_locked r.0, r.1)

unfoldable pub confirm_destroyed_match :
    String → Bool → ReducerContext → LiveMatchStore → LiveMatchStore × SideEffects
confirm_destroyed_match match_guid won ctx store =
    let r = confirm_pending_destroyed_match match_guid won ctx store.state in
    (publish_snapshot_locked r.0, r.1)

-- The other methods, as what they do to the state.
unfoldable pub set_local_primary_id : String → MatchState → MatchState
set_local_primary_id primary_id state = record state {
  my_primary_id = primary_id;
  my_team = if str_eq primary_id "" then negsuc 0 else team_of (lookup primary_id state.roster);
}
  where
    team_of : Option PlayerData → ℤ
    team_of none = negsuc 0
    team_of (some player) = player.team

-- The player's data after `change`, where the player is on the roster.
abbrev pub change_player :
    String → (PlayerData → PlayerData) → List (String × PlayerData) → List (String × PlayerData)
change_player primary_id change roster = elim (lookup primary_id roster) [
  | none ↦ roster
  | some player ↦ insert primary_id (change player) roster
]

abbrev pub is_known_rating : String × ℤ → Bool
is_known_rating (playlist, mmr) = not (str_eq playlist "best") && ltb_ℤ (pos 0) mmr

unfoldable pub update_roster_mmr :
    String → List (String × ℤ) → List (String × ℤ) → MatchState → MatchState
update_roster_mmr primary_id playlists playlist_matches state = record state {
  roster =
      change_player primary_id
        (λ player. record player {
          playlists = playlists;
          playlist_matches = playlist_matches;
          fetched = true;
          fetch_failed = false;
        })
        state.roster;
  pre_match_mmr_by_guid =
      if state.in_match
        && not (str_eq state.match_guid "")
        && not (is_some (lookup state.match_guid state.pre_match_mmr_by_guid))
        && str_eq state.my_primary_id primary_id
        && any_of is_known_rating playlists
      then emplace state.match_guid
          (record { playlist_mmrs = playlists; playlist_matches = playlist_matches })
          state.pre_match_mmr_by_guid
      else state.pre_match_mmr_by_guid;
}

unfoldable pub set_roster_fetch_failed : String → MatchState → MatchState
set_roster_fetch_failed primary_id state = record state {
  roster =
      change_player primary_id (λ player. record player { fetched = true; fetch_failed = true })
        state.roster;
}

unfoldable pub update_player_lifetime_data :
    String → String → ℤ × ℤ → ℤ × ℤ → MatchState → MatchState
update_player_lifetime_data account primary_id (wins_with, losses_with)
      (wins_against, losses_against) state =
    if not (str_eq state.my_primary_id account) then state else record state {
      roster =
          change_player primary_id
            (λ player. record player {
              lifetime_wins_with = wins_with;
              lifetime_losses_with = losses_with;
              lifetime_wins_against = wins_against;
              lifetime_losses_against = losses_against;
              has_lifetime_data = true;
            })
            state.roster;
    }

-- `Insights::StartsNewSession` with a previous match: more than two hours lie between.
unfoldable pub starts_new_session : ℤ → ℤ → Bool
starts_new_session previous_ended_at_unix ended_at_unix =
    ltb_ℤ (pos 7200) (ended_at_unix -ℤ previous_ended_at_unix)

-- The result tells whether a recap was captured.
unfoldable pub close_session_if_inactive : ℤ → History → MatchState → MatchState × Bool
close_session_if_inactive now_unix history state =
    if state.in_match
      || leb_ℤ (games_played state) (pos 0)
      || leb_ℤ state.last_match_ended_at_unix (pos 0)
      || not (starts_new_session state.last_match_ended_at_unix now_unix)
    then (state, false)
    else start_new_session state.last_match_ended_at_unix history state

-- ===== src/Store/Examples.antt =====
-- The lemmas on the store, at a session of one game.
use omni_stats.Prelude.{List, ◌∷◌, ◌≡◌, refl, ◌⊎◌, true, false, [], some, is_some, ap}
use omni_stats.Prelude.Int.{pos}
use omni_stats.Matches.{
  MatchState, new_match_state, no_totals, classify_match_end, classify_played, classify_lobby,
  capture_match,
}
use omni_stats.Matches.Reset.{History}
use omni_stats.Store.{close_session_if_inactive}
use omni_stats.Store.Sessions.{is_due, IsClosed, close_session_if_inactive_lem}
use omni_stats.Store.Calls.{Call}
use omni_stats.Store.Ended.{captured_at_end}
use omni_stats.Playlists.{find, playlists}
use omni_stats.Store.Created.{match_created-close_session}
use omni_stats.Reducer.Types.{ReducerContext, MatchEndedEvent}
use omni_stats.Reducer.Events.{TelemetryEvent, reduce, visit}
use omni_stats.Reducer.Created.{match_created, enter_match, starts_new_lifecycle}
use omni_stats.Reducer.Effects.{push_discord, publish_ui_timestamps}

-- The game was won, and ended three hours before `now`.
abbrev rested : MatchState
rested = record new_match_state {
  session_totals = record no_totals { wins = pos 1 };
  session_generation = 3;
  last_match_ended_at_unix = pos 1700000000;
}

abbrev history : History
history = record { point_guids = []; mmr_owner_primary_id = "" }

is_due-rested : is_due (pos 1700010800) rested ≡ true
unfolding omni_stats.Prelude.Int.◌+ℤ◌ omni_stats.Prelude.Int.◌-ℤ◌
is_due-rested = refl

close_session_if_inactive_example :
    let r = close_session_if_inactive (pos 1700010800) history rested in
    (r.1 ≡ is_due (pos 1700010800) rested)
    × (((r.1 ≡ false) × (r.0 ≡ rested)) ⊎ ((r.1 ≡ true) × IsClosed rested r.0))
close_session_if_inactive_example = close_session_if_inactive_lem (pos 1700010800) history rested

abbrev ctx : ReducerContext
ctx = record {
  now_ms = pos 5000;
  now_unix = pos 1700010800;
  config = record {
    reset_session_on_close = false;
    enable_mmr_tracking = true;
    custom_api_enabled = false;
    account_refresh_token = "";
  };
  steady_now_ms = pos 5000;
  system_now_ms = pos 1700010800000;
}

abbrev begin : TelemetryEvent
begin = TelemetryEvent.match_created_event "GUID"

asks_to_close :
    (reduce begin ctx rested).1.close_session_if_inactive_at_unix ≡ some (pos 1700010800)
unfolding reduce visit match_created enter_match starts_new_lifecycle push_discord
    publish_ui_timestamps
asks_to_close = refl

match_created-close_session_example :
    let after = (reduce begin ctx rested).0 in
    close_session_if_inactive (pos 1700010800) history after ≡ (after, false)
match_created-close_session_example =
    match_created-close_session "GUID" ctx rested (pos 1700010800) history
      (ap is_some asks_to_close)

-- A match begins, the local player is known, and the session is asked to close.
abbrev calls : List Call
calls =
    Call.apply_event_call begin ctx
    ∷ Call.local_id_call "Steam|1|0"
    ∷ Call.close_call (pos 1700010800) history
    ∷ []

-- A game of ranked doubles that is nearly over.
abbrev doubles : MatchState
doubles = record new_match_state {
  in_match = true;
  my_team = pos 1;
  my_primary_id = "Steam|1|0";
  match_guid = "GUID";
  playlist_id = pos 11;
  active_match_generation = 4;
  session_generation = 1;
  score = (pos 2, pos 2);
  round_ever_started = true;
  local_player_was_active = true;
}

abbrev won : MatchEndedEvent
won = record {
  match_guid = "GUID";
  winner_team = pos 1;
  team_scores = some (pos 2, pos 3);
  forfeit_scopes = [];
}

is_kept : (classify_match_end (captured_at_end won ctx doubles) (pos 1)).should_persist ≡ true
unfolding classify_match_end classify_played classify_lobby capture_match find playlists
is_kept = refl

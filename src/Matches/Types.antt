-- ===== src/Matches/Types.antt =====
-- The records of src/core/state that the reducer works on: `MatchState` and `CapturedMatch` of
-- MatchState.hpp, `PlayerData` and `MatchStats` of SessionState.hpp, and those of SessionTypes.hpp.
--
-- Left out are the floats (speeds, clocks and durations), the journal of events, the analytics and the
-- history of ratings, which no modelled function reads, and fields of players that are only shown.
use omni_stats.Prelude.{ℕ, String, Bool, false, List, []}
use omni_stats.Prelude.Int.{ℤ, pos, negsuc}
use omni_stats.Prelude.Text.{Text}
use omni_stats.Playlists.{MmrCategory}

pub record PlayerData : Type 0 where
  pub primary_id : String
  pub name : String
  pub team : ℤ
  pub mmr : ℤ
  pub lifetime_wins_with : ℤ
  pub lifetime_losses_with : ℤ
  pub lifetime_wins_against : ℤ
  pub lifetime_losses_against : ℤ
  pub has_lifetime_data : Bool
  pub fetched : Bool
  pub fetch_failed : Bool
  pub enqueued : Bool
  pub playlists : List (String × ℤ)
  pub playlist_matches : List (String × ℤ)
  pub goals : ℤ
  pub saves : ℤ
  pub shots : ℤ
  pub demos : ℤ
  pub assists : ℤ
  pub score : ℤ

-- A player with the initial values of the struct.
abbrev pub blank_player : PlayerData
blank_player = record {
  primary_id = "";
  name = "";
  team = negsuc 0;
  mmr = pos 0;
  lifetime_wins_with = pos 0;
  lifetime_losses_with = pos 0;
  lifetime_wins_against = pos 0;
  lifetime_losses_against = pos 0;
  has_lifetime_data = false;
  fetched = false;
  fetch_failed = false;
  enqueued = false;
  playlists = [];
  playlist_matches = [];
  goals = pos 0;
  saves = pos 0;
  shots = pos 0;
  demos = pos 0;
  assists = pos 0;
  score = negsuc 0;
}

pub record MatchStats : Type 0 where
  pub goals : ℤ
  pub goals_self : ℤ
  pub saves : ℤ
  pub saves_self : ℤ
  pub shots : ℤ
  pub shots_self : ℤ
  pub demos : ℤ
  pub demos_self : ℤ
  pub assists : ℤ
  pub assists_self : ℤ
  pub demoed_self : ℤ
  pub crossbars : ℤ
  pub crossbars_self : ℤ
  pub own_goals : ℤ
  pub own_goals_self : ℤ
  pub boost_picked_up : ℤ
  pub boost_picked_up_self : ℤ

abbrev pub no_stats : MatchStats
no_stats = record {
  goals = pos 0;
  goals_self = pos 0;
  saves = pos 0;
  saves_self = pos 0;
  shots = pos 0;
  shots_self = pos 0;
  demos = pos 0;
  demos_self = pos 0;
  assists = pos 0;
  assists_self = pos 0;
  demoed_self = pos 0;
  crossbars = pos 0;
  crossbars_self = pos 0;
  own_goals = pos 0;
  own_goals_self = pos 0;
  boost_picked_up = pos 0;
  boost_picked_up_self = pos 0;
}

pub record LocalPreMatchMmrSnapshot : Type 0 where
  pub playlist_mmrs : List (String × ℤ)
  pub playlist_matches : List (String × ℤ)

pub record SessionTotals : Type 0 where
  pub wins : ℤ
  pub losses : ℤ
  pub goals : ℤ
  pub saves : ℤ
  pub saves_total : ℤ
  pub shots : ℤ
  pub shots_total : ℤ
  pub demos : ℤ
  pub demos_total : ℤ
  pub demoed : ℤ
  pub assists : ℤ
  pub assists_total : ℤ
  pub crossbars : ℤ
  pub crossbars_total : ℤ
  pub own_goals : ℤ
  pub own_goals_self : ℤ
  pub boost_picked_up : ℤ
  pub team_goals : ℤ
  pub goal_participations : ℤ

abbrev pub no_totals : SessionTotals
no_totals = record {
  wins = pos 0;
  losses = pos 0;
  goals = pos 0;
  saves = pos 0;
  saves_total = pos 0;
  shots = pos 0;
  shots_total = pos 0;
  demos = pos 0;
  demos_total = pos 0;
  demoed = pos 0;
  assists = pos 0;
  assists_total = pos 0;
  crossbars = pos 0;
  crossbars_total = pos 0;
  own_goals = pos 0;
  own_goals_self = pos 0;
  boost_picked_up = pos 0;
  team_goals = pos 0;
  goal_participations = pos 0;
}

pub record GamemodeStat : Type 0 where
  pub wins : ℤ
  pub losses : ℤ
  pub total : ℤ

abbrev pub no_gamemode : GamemodeStat
no_gamemode = record { wins = pos 0; losses = pos 0; total = pos 0 }

pub record SessionRecap : Type 0 where
  pub valid : Bool
  pub ended_at_unix : ℤ
  pub totals : SessionTotals
  pub gamemodes : List (String × GamemodeStat)
  pub session_generation : ℕ
  pub account : String
  pub started_at_unix : ℤ
  pub match_guids : List String

abbrev pub no_recap : SessionRecap
no_recap = record {
  valid = false;
  ended_at_unix = pos 0;
  totals = no_totals;
  gamemodes = [];
  session_generation = 0;
  account = "";
  started_at_unix = pos 0;
  match_guids = [];
}

pub record CapturedMatch : Type 0 where
  pub arena_name : Text
  pub arena_asset : Text
  pub match_guid : String
  pub playlist_id : ℤ
  pub match_generation : ℕ
  pub session_generation : ℕ
  pub my_primary_id : String
  pub my_team : ℤ
  pub score : ℤ × ℤ
  pub legacy_max_players_seen : ℤ
  pub legacy_max_team_players_seen : ℤ × ℤ
  pub round_ever_started : Bool
  pub local_player_was_active : Bool
  pub local_player_was_spectator : Bool
  pub legacy_lobby_was_ever_full : Bool
  pub local_player_disappeared : Bool
  pub explicit_local_forfeit : Bool
  pub fallback_casual_context : Bool
  pub fallback_non_recordable_context : Bool
  pub fallback_non_recordable_reason : String
  pub non_live_replay : Bool
  pub stats : MatchStats
  pub roster : List (String × PlayerData)
  pub roster_mmr_category : MmrCategory
  pub mode : String
  pub pre_match_mmr : LocalPreMatchMmrSnapshot
  pub has_pre_match_mmr : Bool
  pub ended_at_unix_ms : ℤ

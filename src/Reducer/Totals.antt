-- ===== src/Reducer/Totals.antt =====
-- `AddMatchToSessionTotals` of src/core/reducer/TelemetryReducerFinalize.cpp.
--
-- The integers of the counters are not bounded here.
use omni_stats.Prelude.{
  String, Bool, true, false, ◌&&◌, ◌||◌, not, List, [], ◌∷◌, Option, none, some, str_eq,
  if◌then◌else◌,
}
use omni_stats.Prelude.Int.{ℤ, pos, ◌+ℤ◌, eqb_ℤ, leb_ℤ, ltb_ℤ}
use omni_stats.Prelude.Maps.{lookup, insert}
use omni_stats.Playlists
use omni_stats.Playlists.{is_tracked_competitive_mode}
use omni_stats.Matches.{
  PlayerData, MatchStats, SessionTotals, GamemodeStat, no_gamemode, CapturedMatch, is_team,
}

abbrev pub team_score : ℤ × ℤ → ℤ → ℤ
team_score (blue, orange) team = if eqb_ℤ team (pos 1) then orange else blue

abbrev pub max_ℤ : ℤ → ℤ → ℤ
max_ℤ a b = if ltb_ℤ a b then b else a

-- `std::clamp`.
abbrev pub clamp_ℤ : ℤ → ℤ → ℤ → ℤ
clamp_ℤ v low high = if ltb_ℤ v low then low else if ltb_ℤ high v then high else v

abbrev pub add_roster_goals : ℤ → List (String × PlayerData) → ℤ → ℤ
add_roster_goals my_team [] goals = goals
add_roster_goals my_team ((primary_id, player) ∷ rest) goals =
    add_roster_goals my_team rest
      (if eqb_ℤ player.team my_team then goals +ℤ player.goals else goals)

unfoldable pub team_goals_this_match : CapturedMatch → ℤ
team_goals_this_match m =
    let scored = if is_team m.my_team then team_score m.score m.my_team else pos 0 in
    if leb_ℤ scored (pos 0) then add_roster_goals m.my_team m.roster scored else scored

unfoldable pub participation_this_match : CapturedMatch → ℤ
participation_this_match m =
    clamp_ℤ (m.stats.goals_self +ℤ m.stats.assists_self) (pos 0)
      (max_ℤ (pos 0) (team_goals_this_match m))

abbrev pub count_result : Bool → SessionTotals → SessionTotals
count_result true totals = record totals { wins = totals.wins +ℤ pos 1 }
count_result false totals = record totals { losses = totals.losses +ℤ pos 1 }

abbrev pub count_stats : MatchStats → SessionTotals → SessionTotals
count_stats stats totals = record totals {
  goals = totals.goals +ℤ stats.goals_self;
  saves = totals.saves +ℤ stats.saves_self;
  saves_total = totals.saves_total +ℤ stats.saves;
  shots = totals.shots +ℤ stats.shots_self;
  shots_total = totals.shots_total +ℤ stats.shots;
  demos = totals.demos +ℤ stats.demos_self;
  demos_total = totals.demos_total +ℤ stats.demos;
  demoed = totals.demoed +ℤ stats.demoed_self;
  crossbars = totals.crossbars +ℤ stats.crossbars_self;
  crossbars_total = totals.crossbars_total +ℤ stats.crossbars;
  assists = totals.assists +ℤ stats.assists_self;
  assists_total = totals.assists_total +ℤ stats.assists;
  boost_picked_up = totals.boost_picked_up +ℤ stats.boost_picked_up_self;
  own_goals = totals.own_goals +ℤ stats.own_goals;
  own_goals_self = totals.own_goals_self +ℤ stats.own_goals_self;
}

abbrev pub count_goals : CapturedMatch → SessionTotals → SessionTotals
count_goals m totals = if str_eq m.mode "1v1" then totals else record totals {
  team_goals = totals.team_goals +ℤ max_ℤ (pos 0) (team_goals_this_match m);
  goal_participations = totals.goal_participations +ℤ participation_this_match m;
}

-- The match counts in the table of game modes.
unfoldable pub counts_for_gamemode : CapturedMatch → Bool
counts_for_gamemode m =
    not (Playlists.is_casual m.playlist_id)
    && not (
        not (Playlists.has_authoritative_id m.playlist_id)
        && (m.fallback_casual_context || m.fallback_non_recordable_context))
    && is_tracked_competitive_mode m.mode

abbrev pub count_gamemode : Bool → GamemodeStat → GamemodeStat
count_gamemode true g = record g { wins = g.wins +ℤ pos 1; total = g.total +ℤ pos 1 }
count_gamemode false g = record g { losses = g.losses +ℤ pos 1; total = g.total +ℤ pos 1 }

abbrev pub gamemode_or_new : Option GamemodeStat → GamemodeStat
gamemode_or_new none = no_gamemode
gamemode_or_new (some g) = g

abbrev pub count_mode :
    CapturedMatch → Bool → List (String × GamemodeStat) → List (String × GamemodeStat)
count_mode m i_won gamemodes =
    if counts_for_gamemode m
    then insert m.mode (count_gamemode i_won (gamemode_or_new (lookup m.mode gamemodes))) gamemodes
    else gamemodes

unfoldable pub add_match_to_session_totals :
    CapturedMatch
    → Bool
    → SessionTotals × List (String × GamemodeStat)
    → SessionTotals × List (String × GamemodeStat)
add_match_to_session_totals m i_won (totals, gamemodes) =
    (count_goals m (count_stats m.stats (count_result i_won totals)), count_mode m i_won gamemodes)

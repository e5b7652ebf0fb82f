-- ===== src/Reducer/Stats.antt =====
-- src/core/reducer/TelemetryReducerStats.cpp: goals, saves and the other counted events.
--
-- Left out are the speeds and times, which are floats, and the journal. `BallHitEvent` writes only
-- speeds.
use omni_stats.Prelude.{
  String, Bool, true, false, ◌&&◌, ◌||◌, not, List, [], ◌∷◌, Option, none, some, str_eq,
  if◌then◌else◌,
}
use omni_stats.Prelude.Int.{ℤ, pos, negsuc, ◌+ℤ◌, eqb_ℤ}
use omni_stats.Prelude.Maps.{insert_key, lookup, insert}
use omni_stats.Matches.{MatchState, PlayerData}
use omni_stats.Reducer.Types.{ReducerContext, SideEffects, no_update}
use omni_stats.Reducer.Effects.{event_now_ms, push_discord}
use omni_stats.Reducer.Guids.{accepts_ui_match_event, is_finalized_guid, is_pending, is_other_match}

pub record PlayerRef : Type 0 where
  pub name : String
  pub primary_id : String
  pub team : ℤ

pub record StatfeedEvent : Type 0 where
  pub event_name : String
  pub main_target : PlayerRef
  pub secondary_target : Option PlayerRef
  pub match_guid : String

pub record GoalScoredEvent : Type 0 where
  pub match_guid : String
  pub scorer : PlayerRef
  pub is_echo : Bool

abbrev pub first_named : String → String → List (String × PlayerData) → Bool
first_named name my_primary_id [] = false
first_named name my_primary_id ((pid, player) ∷ rest) =
    if str_eq player.name name
    then str_eq pid my_primary_id
    else first_named name my_primary_id rest

unfoldable pub is_self : MatchState → String → Bool
is_self state name =
    not (str_eq name "" || str_eq state.my_primary_id "")
    && first_named name state.my_primary_id state.roster

unfoldable pub is_self_by_id : MatchState → String → Bool
is_self_by_id state pid = not (str_eq pid "") && str_eq pid state.my_primary_id

abbrev pub is_target : PlayerRef → PlayerData → Bool
is_target target player =
    str_eq player.name target.name
    && (eqb_ℤ target.team (negsuc 0) || eqb_ℤ player.team target.team)

-- The one that fits, where it is the only one; `found` is the one found so far.
abbrev pub only_match : PlayerRef → String → List (String × PlayerData) → String
only_match target found [] = found
only_match target found ((pid, player) ∷ rest) =
    let fits = is_target target player in
    let later = only_match target (if fits then pid else found) rest in
    if fits && not (str_eq found "") then "" else later

unfoldable pub resolve_roster_player_id : MatchState → PlayerRef → String
resolve_roster_player_id state target =
    if not (str_eq target.primary_id "")
    then target.primary_id
    else if str_eq target.name ""
    then ""
    else only_match target "" state.roster

-- `!id.empty() ? IsSelfById(state, id) : IsSelf(state, name)`.
unfoldable pub is_self_target : MatchState → PlayerRef → Bool
is_self_target state target =
    let id = resolve_roster_player_id state target in
    if not (str_eq id "") then is_self_by_id state id else is_self state target.name

abbrev pub is_self_secondary : MatchState → Option PlayerRef → Bool
is_self_secondary state none = false
is_self_secondary state (some target) = is_self_target state target

abbrev pub secondary_id : MatchState → Option PlayerRef → String
secondary_id state none = ""
secondary_id state (some target) = resolve_roster_player_id state target

abbrev pub plus_one_if : Bool → ℤ → ℤ
plus_one_if true n = n +ℤ pos 1
plus_one_if false n = n

-- `if (!id.empty() && state.roster.count(id)) state.roster[id].…++`.
abbrev pub count_for :
    String → (PlayerData → PlayerData) → List (String × PlayerData) → List (String × PlayerData)
count_for id change roster =
    if str_eq id ""
    then roster
    else elim (lookup id roster) [ none ↦ roster | some player ↦ insert id (change player) roster ]

abbrev pub count_save : Bool → String → MatchState → MatchState
count_save is_self id state = record state {
  current_match = record state.current_match {
    saves = state.current_match.saves +ℤ pos 1;
    saves_self = plus_one_if is_self state.current_match.saves_self;
  };
  roster = count_for id (λ p. record p { saves = p.saves +ℤ pos 1 }) state.roster;
}

abbrev pub count_shot : Bool → String → MatchState → MatchState
count_shot is_self id state = record state {
  current_match = record state.current_match {
    shots = state.current_match.shots +ℤ pos 1;
    shots_self = plus_one_if is_self state.current_match.shots_self;
  };
  roster = count_for id (λ p. record p { shots = p.shots +ℤ pos 1 }) state.roster;
}

abbrev pub count_demolition : Bool → Bool → String → String → MatchState → MatchState
count_demolition is_self is_victim id victim_id state = record state {
  current_match = record state.current_match {
    demos = state.current_match.demos +ℤ pos 1;
    demos_self = plus_one_if is_self state.current_match.demos_self;
    demoed_self = plus_one_if is_victim state.current_match.demoed_self;
  };
  roster = count_for id (λ p. record p { demos = p.demos +ℤ pos 1 }) state.roster;
  boost_respawn_pending =
      if str_eq victim_id ""
      then state.boost_respawn_pending
      else insert_key victim_id state.boost_respawn_pending;
}

abbrev pub count_own_goal : Bool → MatchState → MatchState
count_own_goal is_self state = record state {
  current_match = record state.current_match {
    own_goals = state.current_match.own_goals +ℤ pos 1;
    own_goals_self = plus_one_if is_self state.current_match.own_goals_self;
  };
}

abbrev pub count_assist : Bool → String → MatchState → MatchState
count_assist is_self id state = record state {
  current_match = record state.current_match {
    assists = state.current_match.assists +ℤ pos 1;
    assists_self = plus_one_if is_self state.current_match.assists_self;
  };
  roster = count_for id (λ p. record p { assists = p.assists +ℤ pos 1 }) state.roster;
}

unfoldable pub handle_statfeed : StatfeedEvent → MatchState → MatchState
handle_statfeed ev state =
    let main_id = resolve_roster_player_id state ev.main_target in
    let is_main_self = is_self_target state ev.main_target in
    if state.in_replay
    then state
    else if str_eq ev.event_name "Save"
        || str_eq ev.event_name "EpicSave"
        || str_eq ev.event_name "Epic Save"
    then count_save is_main_self main_id state
    else if str_eq ev.event_name "Shot"
    then count_shot is_main_self main_id state
    else if str_eq ev.event_name "Demolish"
    then count_demolition is_main_self (is_self_secondary state ev.secondary_target) main_id
        (secondary_id state ev.secondary_target) state
    else if str_eq ev.event_name "OwnGoal"
    then count_own_goal is_main_self state
    else if str_eq ev.event_name "Assist"
    then count_assist is_main_self main_id state
    else state

-- The overlay's part.
abbrev pub note_goal : ℤ → Bool × MatchState × SideEffects → MatchState × SideEffects
note_goal now_ms (true, state, effects) = (
  record state { last_goal_ms = now_ms; countdown_seen_this_round = false },
  record effects { ui_update = some (record no_update { last_goal_ms = some now_ms }) },
)
note_goal now_ms (false, state, effects) = (state, effects)

unfoldable pub is_stale_goal : MatchState → String → Bool
is_stale_goal state goal_guid =
    state.non_live_replay_active
    || (not (str_eq goal_guid "")
        && (is_finalized_guid state goal_guid
            || is_pending state goal_guid
            || (state.in_match && not state.match_finalized && is_other_match state goal_guid)))

unfoldable pub count_goal : GoalScoredEvent → MatchState × SideEffects → MatchState × SideEffects
count_goal ev (state, effects) =
    let scored = record state {
      round_active = false;
      current_match = record state.current_match {
        goals = state.current_match.goals +ℤ pos 1;
        goals_self = plus_one_if (is_self_target state ev.scorer) state.current_match.goals_self;
      };
      roster =
          count_for (resolve_roster_player_id state ev.scorer)
            (λ p. record p { goals = p.goals +ℤ pos 1 }) state.roster;
    } in
    (scored, push_discord scored effects)

abbrev pub score_unless :
    Bool → GoalScoredEvent → MatchState × SideEffects → MatchState × SideEffects
score_unless true ev r = r
score_unless false ev r = count_goal ev r

unfoldable pub handle_goal_scored :
    GoalScoredEvent → ReducerContext → MatchState × SideEffects → MatchState × SideEffects
handle_goal_scored ev ctx (state, effects) =
    let noted =
      note_goal (event_now_ms ctx)
        (accepts_ui_match_event state ev.match_guid (event_now_ms ctx) effects) in
    if ev.is_echo || state.in_replay
    then (state, effects)
    else score_unless (is_stale_goal noted.0 ev.match_guid) ev noted

unfoldable pub handle_crossbar_hit : PlayerRef → MatchState → MatchState
handle_crossbar_hit last_touch state = record state {
  current_match = record state.current_match {
    crossbars = state.current_match.crossbars +ℤ pos 1;
    crossbars_self =
        plus_one_if (is_self_target state last_touch) state.current_match.crossbars_self;
  };
}

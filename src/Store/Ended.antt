-- ===== src/Store/Ended.antt =====
-- The end of a match, from the event that `ApplyEvent` of src/core/state/LiveMatchStore.cpp gets to the
-- snapshot that readers get.
use omni_stats.Prelude.{◌≡◌, ◌⊎◌, String, Bool, true, false, not, ◌&&◌, Option, none, str_eq}
use omni_stats.Prelude.Int.{ℤ, eqb_ℤ}
use omni_stats.Prelude.Maps.{lookup}
use omni_stats.Matches.{MatchState, CapturedMatch, capture_match}
use omni_stats.Reducer.Types.{
  ReducerContext, MatchFinalizeSource, MatchEndedEvent, MatchSaveSnapshot,
}
use omni_stats.Reducer.Effects.{event_now_ms}
use omni_stats.Reducer.Guids.{is_finalized_guid}
use omni_stats.Reducer.Terminal.{score_or, finalize_source, has_explicit_local_forfeit_signal}
use omni_stats.Reducer.Confirm.{IsSaved}

-- A match is played, has a guid, and is neither over nor waits for the tracker.
pub record IsPlayed (guid : String) (state : MatchState) : Type 0 where
  pub active : state.in_match ≡ true
  pub not_over : state.match_finalized ≡ false
  pub is_named : str_eq guid "" ≡ false
  pub named : state.match_guid ≡ guid
  pub not_waiting : lookup guid state.pending_destroyed_matches ≡ none
  pub not_finalized : is_finalized_guid state guid ≡ false

-- What `HandleMatchEnded` writes before `FinalizeMatch`.
abbrev ended : MatchEndedEvent → ReducerContext → MatchState → MatchState
ended ev ctx state = record state {
  in_goal_replay = false;
  last_match_end_ms = event_now_ms ctx;
  countdown_seen_this_round = false;
  round_active = false;
  score = score_or state.score ev.team_scores;
}

abbrev source : MatchEndedEvent → MatchState → MatchFinalizeSource
source ev state =
    finalize_source
      (has_explicit_local_forfeit_signal ev.forfeit_scopes state.my_team
        && not (eqb_ℤ ev.winner_team state.my_team))
      MatchFinalizeSource.match_ended

-- The match as it is captured at its end, with the score of the event where it has one.
abbrev pub captured_at_end : MatchEndedEvent → ReducerContext → MatchState → CapturedMatch
captured_at_end ev ctx state =
    capture_match ctx.system_now_ms (record state { score = score_or state.score ev.team_scores })

-- The final save that is asked for: one of this match where it is kept, and else none.
abbrev pub SavedIf : Bool → CapturedMatch → ℤ → Option MatchSaveSnapshot → Type 0
SavedIf kept m winner save =
    ((kept ≡ true) × IsSaved m winner save) ⊎ ((kept ≡ false) × (save ≡ none))

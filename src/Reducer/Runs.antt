-- ===== src/Reducer/Runs.antt =====
-- What the store of src/core/state/LiveMatchStore.cpp does to the state, in any order: each method takes
-- the lock, so a run is a sequence of steps.
use omni_stats.Prelude.{
  ◌+◌, ◌≤◌, ◌≡◌, refl, ap, String, Bool, false, List, [], ◌∷◌, Option, none, some, arith, str_eq,
  count_if,
}
use omni_stats.Prelude.Int.{ℤ}
use omni_stats.Matches.{MatchState, new_match_state}
use omni_stats.Matches.Reset.{History, start_new_session, clear_active_match_on_disconnect}
use omni_stats.Reducer.Types.{ReducerContext, MatchSaveSnapshot}
use omni_stats.Reducer.Guids.{on_telemetry_disconnected}
use omni_stats.Reducer.Terminal.{confirm_pending_destroyed_match}
use omni_stats.Reducer.Events.{TelemetryEvent, reduce}
use omni_stats.Reducer.Frame.{
  kept, kept-on_telemetry_disconnected, kept-clear_active_match_on_disconnect,
}
use omni_stats.Reducer.Once.{Once, finalized, saves_of}
use omni_stats.Reducer.Ends.{reduce-Once, confirm_pending_destroyed_match-Once}
use omni_stats.Reducer.Waiting.{Waiting, Waiting-of_eq}
use omni_stats.Reducer.Waits.{Waiting-reduce, Waiting-confirm}

-- A step, and the final save that it asks for. `other` stands for the methods and handlers that are not
-- modelled: they write neither the guids nor the sessions, and ask for no save.
pub data Step : MatchState → Option MatchSaveSnapshot → MatchState → Type 0 where
  reduced :
      (event : TelemetryEvent) (ctx : ReducerContext) (state : MatchState)
      → Step state (reduce event ctx state).1.save (reduce event ctx state).0
  confirmed :
      (guid : String) (won : Bool) (ctx : ReducerContext) (state : MatchState)
      → Step state
          (confirm_pending_destroyed_match guid won ctx state).1.save
          (confirm_pending_destroyed_match guid won ctx state).0
  disconnected : (state : MatchState) → Step state none (on_telemetry_disconnected state)
  cleared : (state : MatchState) → Step state none (clear_active_match_on_disconnect state)
  session_started :
      (ended : ℤ) (history : History) (state : MatchState)
      → Step state none (start_new_session ended history state).0
  other : (state state' : MatchState) → kept state' ≡ kept state → Step state none state'

abbrev pub and_then : Option MatchSaveSnapshot → List MatchSaveSnapshot → List MatchSaveSnapshot
and_then none saves = saves
and_then (some s) saves = s ∷ saves

-- The final saves that are asked for in a run, in order.
pub data Run : MatchState → List MatchSaveSnapshot → MatchState → Type 0 where
  here : (state : MatchState) → Run state [] state
  next :
      (s t u : MatchState) (save : Option MatchSaveSnapshot) (saves : List MatchSaveSnapshot)
      → Step s save t
      → Run t saves u
      → Run s (and_then save saves) u

abbrev pub is_save_of : String → MatchSaveSnapshot → Bool
is_save_of guid s = str_eq s.match_guid guid

guids-start_new_session :
    (ended : ℤ) (history : History) (state : MatchState)
    → let state' = (start_new_session ended history state).0 in
      (state'.finalized_match_guids ≡ state.finalized_match_guids)
      × (state'.pending_destroyed_matches ≡ state.pending_destroyed_matches)
unfolding start_new_session
guids-start_new_session ended history state = (refl, refl)

-- A step without a save that keeps the finalized guids.
kept_guids :
    (guid : String) (s t : MatchState)
    → t.finalized_match_guids ≡ s.finalized_match_guids
    → saves_of guid none + finalized guid s ≤ finalized guid t
kept_guids guid s t e = rw e (omega arith)

pub Step-once :
    (guid : String) {s t : MatchState} {save : Option MatchSaveSnapshot}
    → str_eq guid "" ≡ false
    → Step s save t
    → saves_of guid save + finalized guid s ≤ finalized guid t
unfolding Once
Step-once guid n (Step.reduced event ctx s) =
    let h = reduce-Once guid n event ctx s in omega (arith, h)
Step-once guid n (Step.confirmed g won ctx s) =
    let h = confirm_pending_destroyed_match-Once guid n g won ctx s in omega (arith, h)
Step-once guid n (Step.disconnected s) =
    kept_guids guid s (on_telemetry_disconnected s)
      (ap (λ k. k.0) (kept-on_telemetry_disconnected s))
Step-once guid n (Step.cleared s) =
    kept_guids guid s (clear_active_match_on_disconnect s)
      (ap (λ k. k.0) (kept-clear_active_match_on_disconnect s))
Step-once guid n (Step.session_started ended history s) =
    kept_guids guid s (start_new_session ended history s).0
      (guids-start_new_session ended history s).0
Step-once guid n (Step.other s t e) = kept_guids guid s t (ap (λ k. k.0) e)

pub count-and_then :
    (guid : String) (save : Option MatchSaveSnapshot) (saves : List MatchSaveSnapshot)
    → count_if (is_save_of guid) (and_then save saves)
      ≡ saves_of guid save + count_if (is_save_of guid) saves
count-and_then guid none saves = omega arith
count-and_then guid (some s) saves = ground arith

-- However the events, confirmations, disconnects and new sessions follow each other, the final save of
-- a match with a guid, `save` of the effects, is asked for at most once: these requests for the guid
-- in a run are at most one where the guid was not finalized when the run began, and none where it was;
-- and a guid for which there was one is finalized at the end of the run, as is one that was finalized
-- at its beginning. The provisional saves of early exits, `provisionalSaveSnapshot`, are not counted.
pub saved_once :
    (guid : String) {s t : MatchState} {saves : List MatchSaveSnapshot}
    → str_eq guid "" ≡ false
    → Run s saves t
    → count_if (is_save_of guid) saves + finalized guid s ≤ finalized guid t
saved_once guid n (Run.here s) = omega arith
saved_once guid n (Run.next s t u save saves step run) =
    let first = Step-once guid n step in
    let rest = saved_once guid n run in
    let c = count-and_then guid save saves in omega (arith, first, rest, c)

Step-Waiting :
    {s t : MatchState} {save : Option MatchSaveSnapshot} → Step s save t → Waiting s → Waiting t
Step-Waiting (Step.reduced event ctx s) h = Waiting-reduce event ctx s h
Step-Waiting (Step.confirmed g won ctx s) h = Waiting-confirm g won ctx s h
Step-Waiting (Step.disconnected s) h =
    Waiting-of_eq (on_telemetry_disconnected s) s (ap (λ k. k.1) (kept-on_telemetry_disconnected s))
      h
Step-Waiting (Step.cleared s) h =
    Waiting-of_eq (clear_active_match_on_disconnect s) s
      (ap (λ k. k.1) (kept-clear_active_match_on_disconnect s)) h
Step-Waiting (Step.session_started ended history s) h =
    Waiting-of_eq (start_new_session ended history s).0 s
      (guids-start_new_session ended history s).1 h
Step-Waiting (Step.other s t e) h = Waiting-of_eq t s (ap (λ k. k.1) e) h

-- A run keeps this invariant of the pending matches, which holds of the initial state: each stands
-- under its own guid, which is not empty, has a known local team, and is counted and kept by
-- `ClassifyMatchEnd` whichever of the two teams has won, as a win exactly if this is the local team.
pub Run-Waiting :
    {s t : MatchState} {saves : List MatchSaveSnapshot} → Run s saves t → Waiting s → Waiting t
Run-Waiting (Run.here s) h = h
Run-Waiting (Run.next s t u save saves step run) h = Run-Waiting run (Step-Waiting step h)

pub new_match_state-Waiting : Waiting new_match_state
unfolding Waiting
new_match_state-Waiting = tt

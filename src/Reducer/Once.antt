-- ===== src/Reducer/Once.antt =====
-- How the handlers of src/core/reducer that end a match write the guids of the finalized matches and
-- ask for saves.
use omni_stats.Prelude.{
  ℕ, ◌+◌, ◌≤◌, ◌≡◌, refl, ◌∙◌, ap, String, Bool, true, false, List, Option, none, some, arith,
  if◌then◌else◌, str_eq,
}
use omni_stats.Prelude.Int.{ℤ}
use omni_stats.Matches.{MatchState, CapturedMatch, MatchEndDecision}
use omni_stats.Matches.Reset.{reset_timing}
use omni_stats.Reducer.Types.{SideEffects, ReducerContext, MatchSaveSnapshot, MatchFinalizeSource}
use omni_stats.Reducer.Effects.{push_discord, build_match_save_snapshot}
use omni_stats.Reducer.Guids.{is_finalized_guid}
use omni_stats.Reducer.Finalize.{
  show_result, leave_match, count_match, request_save, show_if_current, save_counted, keep_match,
  conclude,
}
use omni_stats.Reducer.Frame.{kept_all}

-- The saves of a match that are asked for.
abbrev pub saves_of : String → Option MatchSaveSnapshot → ℕ
saves_of guid none = 0
saves_of guid (some s) = if str_eq s.match_guid guid then 1 else 0

abbrev pub finalized : String → MatchState → ℕ
finalized guid state = if is_finalized_guid state guid then 1 else 0

-- Each new save of the guid comes with the guid becoming finalized.
unfoldable pub Once : String → MatchState × SideEffects → MatchState × SideEffects → Type 0
Once guid (state, effects) (state', effects') =
    saves_of guid effects'.save + finalized guid state
    ≤ saves_of guid effects.save + finalized guid state'

pub Once-refl : (guid : String) (r : MatchState × SideEffects) → Once guid r r
unfolding Once
Once-refl guid r = omega arith

pub Once-trans :
    (guid : String) (r s t : MatchState × SideEffects)
    → Once guid r s
    → Once guid s t
    → Once guid r t
unfolding Once
Once-trans guid r s t h k = omega (arith, h, k)

pub if-Once :
    (guid : String) (b : Bool) (r s t : MatchState × SideEffects)
    → Once guid r s
    → Once guid r t
    → Once guid r (if b then s else t)
if-Once guid true r s t h k = h
if-Once guid false r s t h k = k

pub Once-Kept :
    (guid : String) (r s : MatchState × SideEffects) → kept_all s ≡ kept_all r → Once guid r s
unfolding Once kept_all
Once-Kept guid r s h =
    let g : s.0.finalized_match_guids ≡ r.0.finalized_match_guids = ap (λ k. k.0.0) h in
    let e : s.1.save ≡ r.1.save = ap (λ k. k.1) h in simp (g, e) (omega arith)

-- The two sets of guids, and the saves.
abbrev pub guids : MatchState → List String × List (String × CapturedMatch)
guids state = (state.finalized_match_guids, state.pending_destroyed_matches)

pub guids-leave_match :
    (b : Bool) (r : MatchState × SideEffects)
    → (guids (leave_match b r).0 ≡ guids r.0) × ((leave_match b r).1.save ≡ r.1.save)
unfolding leave_match reset_timing push_discord
guids-leave_match true r = (refl, refl)
guids-leave_match false r = (refl, refl)

pub guids-show_if_current :
    (b : Bool) (m : CapturedMatch) (winner : ℤ) (d : MatchEndDecision) (ctx : ReducerContext)
    (r : MatchState × SideEffects)
    → (guids (show_if_current b m winner d ctx r).0 ≡ guids r.0)
      × ((show_if_current b m winner d ctx r).1.save ≡ r.1.save)
unfolding show_result
guids-show_if_current true m winner d ctx r = (refl, refl)
guids-show_if_current false m winner d ctx r = (refl, refl)

pub guids-count_match :
    (m : CapturedMatch) (i_won : Bool) (r : MatchState × SideEffects)
    → (guids (count_match m i_won r).0 ≡ guids r.0) × ((count_match m i_won r).1.save ≡ r.1.save)
unfolding count_match
guids-count_match m i_won (state, effects) = ground arith

guids-request_save :
    (m : CapturedMatch) (winner : ℤ) (d : MatchEndDecision) (source : MatchFinalizeSource)
    (enqueue : Bool) (ctx : ReducerContext) (effects : SideEffects) (guid : String)
    → saves_of guid (request_save m winner d source enqueue ctx effects).save
      ≡ (if str_eq m.match_guid guid then 1 else 0)
unfolding request_save build_match_save_snapshot
guids-request_save m winner d source enqueue ctx effects guid = refl

guids-counted :
    (m : CapturedMatch) (winner : ℤ) (d : MatchEndDecision) (source : MatchFinalizeSource)
    (enqueue : Bool) (ctx : ReducerContext) (r : MatchState × SideEffects)
    → guids (save_counted m winner d source enqueue ctx (count_match m d.i_won r)).0 ≡ guids r.0
guids-counted m winner d source enqueue ctx r = (guids-count_match m d.i_won r).0

-- The guids are as before, and at most a save of the match was asked for.
abbrev pub Concluded :
    CapturedMatch → String → MatchState × SideEffects → MatchState × SideEffects → Type 0
Concluded m guid r r' =
    (guids r'.0 ≡ guids r.0)
    × (saves_of guid r'.1.save
        ≤ saves_of guid r.1.save + (if str_eq m.match_guid guid then 1 else 0))

keep_match-Concluded :
    (keep is_current : Bool) (m : CapturedMatch) (winner : ℤ) (d : MatchEndDecision)
    (source : MatchFinalizeSource) (enqueue : Bool) (ctx : ReducerContext)
    (r : MatchState × SideEffects) (guid : String)
    → Concluded m guid r (keep_match keep is_current m winner d source enqueue ctx r)
keep_match-Concluded true is_current m winner d source enqueue ctx r guid =
    let counted = count_match m d.i_won r in
    let l = guids-leave_match is_current (save_counted m winner d source enqueue ctx counted) in
    let t = guids-request_save m winner d source enqueue ctx counted.1 guid in
    (l.0 ∙ guids-counted m winner d source enqueue ctx r, rw l.1 (rw t (omega arith)))
keep_match-Concluded false is_current m winner d source enqueue ctx r guid =
    let l = guids-leave_match is_current r in (l.0, rw l.1 (omega arith))

pub conclude-Concluded :
    (is_current : Bool) (m : CapturedMatch) (winner : ℤ) (d : MatchEndDecision)
    (source : MatchFinalizeSource) (enqueue : Bool) (ctx : ReducerContext)
    (r : MatchState × SideEffects) (guid : String)
    → Concluded m guid r (conclude is_current m winner d source enqueue ctx r)
unfolding conclude
conclude-Concluded is_current m winner d source enqueue ctx r guid =
    let shown = show_if_current is_current m winner d ctx r in
    let s = guids-show_if_current is_current m winner d ctx r in
    let k =
      keep_match-Concluded d.should_persist is_current m winner d source enqueue ctx shown guid in
    (k.0 ∙ s.0, rw s.1 at k.1)

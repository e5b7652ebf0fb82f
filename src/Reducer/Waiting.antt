-- ===== src/Reducer/Waiting.antt =====
-- The matches that wait for the tracker (`pendingDestroyedMatches`), through the handlers of
-- src/core/reducer.
use omni_stats.Prelude.{
  ◌≡◌, refl, ◌∙◌, sym, ap, subst, String, Bool, true, false, List, [], ◌∷◌, some, arith, inl, inr,
  Bool-cases, if◌then◌else◌, str_eq, eq_iff, All, is_some,
}
use omni_stats.Prelude.Int.{ℤ, pos}
use omni_stats.Prelude.Maps.{lookup, insert, erase}
use omni_stats.Matches.{
  MatchState, CapturedMatch, capture_match, is_team, classify_match_end,
  is_valid_early_competitive_exit,
}
use omni_stats.Matches.Validation.{counted, is_valid_early_competitive_exit_lem}
use omni_stats.Reducer.Types.{SideEffects}
use omni_stats.Reducer.Guids.{emplace}

-- The match stands under its own guid, which is not empty; the local team is known; and whichever team
-- has won, `ClassifyMatchEnd` counts it.
abbrev pub WaitsFor : String × CapturedMatch → Type 0
WaitsFor (guid, m) =
    (m.match_guid ≡ guid)
    × (str_eq guid "" ≡ false)
    × (is_team m.my_team ≡ true)
    × (classify_match_end m (pos 0) ≡ counted m (pos 0))
    × (classify_match_end m (pos 1) ≡ counted m (pos 1))

unfoldable pub Waiting : MatchState → Type 0
Waiting state = All WaitsFor state.pending_destroyed_matches

pub All-erase :
    (k : String) (l : List (String × CapturedMatch)) → All WaitsFor l → All WaitsFor (erase k l)
All-erase k [] h = h
All-erase k ((j, m) ∷ l) h = elim (Bool-cases (str_eq j k)) [
  | inl e ↦ rw e (All-erase k l h.1)
  | inr e ↦ rw e (h.0, All-erase k l h.1)
]

All-insert :
    (k : String) (m : CapturedMatch) (l : List (String × CapturedMatch))
    → WaitsFor (k, m)
    → All WaitsFor l
    → All WaitsFor (insert k m l)
All-insert k m [] w h = (w, h)
All-insert k m ((j, n) ∷ l) w h = elim (Bool-cases (str_eq j k)) [
  | inl e ↦ rw e (w, h.1)
  | inr e ↦ rw e (h.0, All-insert k m l w h.1)
]

pub All-emplace :
    (k : String) (m : CapturedMatch) (l : List (String × CapturedMatch))
    → WaitsFor (k, m)
    → All WaitsFor l
    → All WaitsFor (emplace k m l)
All-emplace k m l w h = elim (Bool-cases (is_some (lookup k l))) [
  | inl e ↦ rw e h
  | inr e ↦ rw e (All-insert k m l w h)
]

pub lookup-WaitsFor :
    (k : String) (m : CapturedMatch) (l : List (String × CapturedMatch))
    → All WaitsFor l
    → lookup k l ≡ some m
    → (str_eq k "" ≡ false)
      × (is_team m.my_team ≡ true)
      × (classify_match_end m (pos 0) ≡ counted m (pos 0))
      × (classify_match_end m (pos 1) ≡ counted m (pos 1))
      × (m.match_guid ≡ k)
lookup-WaitsFor k m [] h e = cc
lookup-WaitsFor k m ((j, n) ∷ l) h e = elim (Bool-cases (str_eq j k)) [
  | inl t ↦
      (let same : j ≡ k = ground (arith, eq_iff j k, t) in
        let n≡m : n ≡ m = cc in
        subst
          (λ x.
            (str_eq k "" ≡ false)
            × (is_team x.my_team ≡ true)
            × (classify_match_end x (pos 0) ≡ counted x (pos 0))
            × (classify_match_end x (pos 1) ≡ counted x (pos 1))
            × (x.match_guid ≡ k))
          n≡m (rw same at h.0.1, h.0.2, h.0.3, h.0.4, h.0.0 ∙ same))
  | inr t ↦ lookup-WaitsFor k m l h.1 (rw t at e)
]

pub Waiting-of_eq :
    (s r : MatchState)
    → s.pending_destroyed_matches ≡ r.pending_destroyed_matches
    → Waiting r
    → Waiting s
unfolding Waiting
Waiting-of_eq s r e h = rw e h

pub if-Waiting :
    (b : Bool) (s t : MatchState × SideEffects)
    → Waiting s.0
    → Waiting t.0
    → Waiting (if b then s else t).0
if-Waiting true s t h k = h
if-Waiting false s t h k = k

-- What the exit that is allowed says of the captured match.
early_exit-guid :
    (state : MatchState)
    → (is_valid_early_competitive_exit state "" "").0 ≡ true
    → (str_eq state.match_guid "" ≡ false) × (is_team state.my_team ≡ true)
unfolding is_valid_early_competitive_exit
early_exit-guid state h = ground arith

pub early_exit-WaitsFor :
    (now : ℤ) (state : MatchState) (mode reason : String)
    → is_valid_early_competitive_exit state "" "" ≡ (true, mode, reason)
    → let m : CapturedMatch = record (capture_match now state) { mode = mode } in
      WaitsFor (m.match_guid, m)
unfolding capture_match
early_exit-WaitsFor now state mode reason e =
    let valid : (is_valid_early_competitive_exit state "" "").0 ≡ true = ap (λ x. x.0) e in
    let blue = is_valid_early_competitive_exit_lem now state "" "" (pos 0) valid refl in
    let orange = is_valid_early_competitive_exit_lem now state "" "" (pos 1) valid refl in
    let same : mode ≡ (capture_match now state).mode = sym (ap (λ x. x.1) e) ∙ blue.0 in
    let g = early_exit-guid state valid in rw same (refl, g.0, g.1, blue.1, orange.1)

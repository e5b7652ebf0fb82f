-- ===== src/Reducer/Finalized.antt =====
-- `Reducer.Once` for `FinalizeCapturedMatch` and `FinalizeMatch` of
-- src/core/reducer/TelemetryReducerFinalize.cpp, and the pending matches through them.
use omni_stats.Prelude.{
  ◌≡◌, refl, ◌∙◌, ap, String, Bool, true, false, not, ◌&&◌, ◌||◌, arith, inl, inr, Bool-cases,
  if◌then◌else◌, str_eq, eq_iff,
}
use omni_stats.Prelude.Int.{ℤ}
use omni_stats.Prelude.Maps.{member, member-insert_key}
use omni_stats.Matches.{MatchState, CapturedMatch, capture_match, classify_match_end}
use omni_stats.Reducer.Types.{SideEffects, ReducerContext, MatchFinalizeSource}
use omni_stats.Reducer.Guids.{is_finalized_guid, record_terminal_match_guid}
use omni_stats.Reducer.Finalize.{is_current_match, finalize_captured_match, finalize_match}
use omni_stats.Reducer.Once.{finalized, Once, Once-refl, Concluded, conclude-Concluded}

record_terminal-finalized :
    (m guid : String) (state : MatchState)
    → str_eq m "" ≡ false
    → finalized guid (record_terminal_match_guid m state)
      ≡ (if str_eq m guid then 1 else finalized guid state)
unfolding record_terminal_match_guid
record_terminal-finalized m guid state h =
    rw h (rw (member-insert_key m guid state.finalized_match_guids) (ground arith))

empty_finalized :
    (m : String) (state : MatchState)
    → str_eq m "" ≡ true
    → record_terminal_match_guid m state ≡ state
unfolding record_terminal_match_guid
empty_finalized m state h = rw h refl

pub pending-record_terminal_match_guid :
    (m : String) (state : MatchState)
    → (record_terminal_match_guid m state).pending_destroyed_matches
      ≡ state.pending_destroyed_matches
unfolding record_terminal_match_guid
pending-record_terminal_match_guid m state = ground arith

-- A new guid is recorded before the save.
recorded-Once :
    (m : CapturedMatch) (guid : String) (r r' : MatchState × SideEffects)
    → str_eq guid "" ≡ false
    → not (str_eq m.match_guid "") && is_finalized_guid r.0 m.match_guid ≡ false
    → Concluded m guid (record_terminal_match_guid m.match_guid r.0, r.1) r'
    → Once guid r r'
unfolding Once
recorded-Once m guid r r' n h (g, c) =
    let same : finalized guid r'.0 ≡ finalized guid (record_terminal_match_guid m.match_guid r.0) =
      ap (λ k. if member guid k.0 then 1 else 0) g in
    elim (Bool-cases (str_eq m.match_guid "")) [
      | inl e ↦
          (let other : str_eq m.match_guid guid ≡ false =
              ground
                (arith, eq_iff m.match_guid "", eq_iff m.match_guid guid, eq_iff guid "", e, n) in
            let unchanged = ap (finalized guid) (empty_finalized m.match_guid r.0 e) in
            rw (same ∙ unchanged) (let c' = rw other at c in omega (arith, c')))
      | inr e ↦
          (let k = record_terminal-finalized m.match_guid guid r.0 e in
            let fresh : is_finalized_guid r.0 m.match_guid ≡ false = ground (arith, h, e) in
            rw (same ∙ k) (elim (Bool-cases (str_eq m.match_guid guid)) [
              | inl t ↦
                  (let eq : m.match_guid ≡ guid = (eq_iff m.match_guid guid).0 t in
                    let not_yet : is_finalized_guid r.0 guid ≡ false = rw eq at fresh in
                    let c' = rw t at c in rw (t, not_yet) (omega (arith, c')))
              | inr t ↦ (let c' = rw t at c in rw t (omega (arith, c')))
            ]))
    ]

pub finalize_captured_match-Once :
    (m : CapturedMatch) (winner : ℤ) (source : MatchFinalizeSource) (enqueue : Bool)
    (ctx : ReducerContext) (r : MatchState × SideEffects) (guid : String)
    → str_eq guid "" ≡ false
    → Once guid r (finalize_captured_match m winner source enqueue ctx r)
unfolding finalize_captured_match
finalize_captured_match-Once m winner source enqueue ctx (state, effects) guid n =
    let recorded = record_terminal_match_guid m.match_guid state in
    elim (Bool-cases (not (str_eq m.match_guid "") && is_finalized_guid state m.match_guid)) [
      | inl h ↦ rw h (Once-refl guid (state, effects))
      | inr h ↦ rw h (
          recorded-Once m guid (state, effects) _ n h
            (conclude-Concluded (is_current_match recorded m) m winner (classify_match_end m winner)
              source enqueue ctx (recorded, effects) guid))
    ]

pub finalize_match-Once :
    (winner : ℤ) (source : MatchFinalizeSource) (ctx : ReducerContext)
    (r : MatchState × SideEffects) (guid : String)
    → str_eq guid "" ≡ false
    → Once guid r (finalize_match winner source ctx r)
unfolding finalize_match
finalize_match-Once winner source ctx (state, effects) guid n =
    let m = capture_match ctx.system_now_ms state in
    elim (Bool-cases (
      state.match_finalized
      || (not (str_eq state.match_guid "") && is_finalized_guid state state.match_guid))) [
        | inl h ↦ rw h (Once-refl guid (state, effects))
        | inr h ↦
            rw h (finalize_captured_match-Once m winner source true ctx (state, effects) guid n)
      ]

-- The pending matches are left alone.
pub pending-finalize_captured_match :
    (m : CapturedMatch) (winner : ℤ) (source : MatchFinalizeSource) (enqueue : Bool)
    (ctx : ReducerContext) (r : MatchState × SideEffects)
    → (finalize_captured_match m winner source enqueue ctx r).0.pending_destroyed_matches
      ≡ r.0.pending_destroyed_matches
unfolding finalize_captured_match
pending-finalize_captured_match m winner source enqueue ctx (state, effects) =
    let recorded = record_terminal_match_guid m.match_guid state in
    elim (Bool-cases (not (str_eq m.match_guid "") && is_finalized_guid state m.match_guid)) [
      | inl h ↦ rw h refl
      | inr h ↦ rw h (
          ap (λ k. k.1)
            (conclude-Concluded (is_current_match recorded m) m winner (classify_match_end m winner)
              source enqueue ctx (recorded, effects) "").0
          ∙ pending-record_terminal_match_guid m.match_guid state)
    ]

pub pending-finalize_match :
    (winner : ℤ) (source : MatchFinalizeSource) (ctx : ReducerContext)
    (r : MatchState × SideEffects)
    → (finalize_match winner source ctx r).0.pending_destroyed_matches
      ≡ r.0.pending_destroyed_matches
unfolding finalize_match
pending-finalize_match winner source ctx (state, effects) =
    let m = capture_match ctx.system_now_ms state in
    elim (Bool-cases (
      state.match_finalized
      || (not (str_eq state.match_guid "") && is_finalized_guid state state.match_guid))) [
        | inl h ↦ rw h refl
        | inr h ↦ rw h (pending-finalize_captured_match m winner source true ctx (state, effects))
      ]

recorded_finalized :
    (guid : String) (state : MatchState)
    → str_eq guid "" ≡ false
    → is_finalized_guid (record_terminal_match_guid guid state) guid ≡ true
unfolding record_terminal_match_guid
recorded_finalized guid state n =
    rw n
      (member-insert_key guid guid state.finalized_match_guids ∙ ground (arith, eq_iff guid guid))

-- The guid of a match is finalized after `FinalizeCapturedMatch`.
pub finalize_captured_match-finalized :
    (m : CapturedMatch) (winner : ℤ) (source : MatchFinalizeSource) (enqueue : Bool)
    (ctx : ReducerContext) (r : MatchState × SideEffects)
    → str_eq m.match_guid "" ≡ false
    → is_finalized_guid (finalize_captured_match m winner source enqueue ctx r).0 m.match_guid
      ≡ true
unfolding finalize_captured_match
finalize_captured_match-finalized m winner source enqueue ctx (state, effects) n =
    let recorded = record_terminal_match_guid m.match_guid state in
    elim (Bool-cases (is_finalized_guid state m.match_guid)) [
      | inl e ↦ rw (n, e) e
      | inr e ↦
          rw (n, e)
            (ap (λ k. member m.match_guid k.0)
                (conclude-Concluded (is_current_match recorded m) m winner
                  (classify_match_end m winner) source enqueue ctx (recorded, effects)
                  m.match_guid).0
              ∙ recorded_finalized m.match_guid state n)
    ]

-- ===== src/Store/Sessions.antt =====
-- When src/core/state/LiveMatchStore.cpp closes a session.
use omni_stats.Prelude.{
  ◌≡◌, refl, ◌⊎◌, inl, inr, Bool, true, false, ◌&&◌, ◌||◌, not, arith, Bool-cases,
}
use omni_stats.Prelude.Int.{ℤ, pos, ltb_ℤ, leb_ℤ, ◌-ℤ◌, ◌+ℤ◌}
use omni_stats.Matches.{MatchState, no_totals}
use omni_stats.Matches.Reset.{History, start_new_session, games_played}
use omni_stats.Store.{close_session_if_inactive, starts_new_session}

-- There is something to close, and the last match ended more than two hours ago.
abbrev pub is_due : ℤ → MatchState → Bool
is_due now state =
    not state.in_match
    && ltb_ℤ (pos 0) (games_played state)
    && ltb_ℤ (pos 0) state.last_match_ended_at_unix
    && ltb_ℤ (pos 7200) (now -ℤ state.last_match_ended_at_unix)

-- The totals and the game modes are in the recap of the ended session, and the new one has none.
abbrev pub IsClosed : MatchState → MatchState → Type 0
IsClosed state state' =
    let recap = state'.last_session_recap in
    (recap.valid ≡ true)
    × (recap.totals ≡ state.session_totals)
    × (recap.gamemodes ≡ state.session_gamemodes)
    × (recap.session_generation ≡ state.session_generation)
    × (recap.ended_at_unix ≡ state.last_match_ended_at_unix)
    × (state'.session_totals ≡ no_totals)
    × (games_played state' ≡ pos 0)

start_new_session-IsClosed :
    (history : History) (state : MatchState)
    → ltb_ℤ (pos 0) (games_played state) ≡ true
    → let r = start_new_session state.last_match_ended_at_unix history state in
      (r.1 ≡ true) × IsClosed state r.0
unfolding start_new_session ◌+ℤ◌
start_new_session-IsClosed history state h = rw h (refl, (refl, refl, refl, refl, refl, refl, refl))

-- `CloseSessionIfInactive` closes the session exactly when no match is active, a match of the session
-- was counted, and the last one ended more than two hours before: then the recap keeps the totals,
-- the game modes and the generation of the session, and the new session has no games. Otherwise the
-- state is left as it is.
pub close_session_if_inactive_lem :
    (now : ℤ) (history : History) (state : MatchState)
    → let r = close_session_if_inactive now history state in
      (r.1 ≡ is_due now state)
      × (((r.1 ≡ false) × (r.0 ≡ state)) ⊎ ((r.1 ≡ true) × IsClosed state r.0))
unfolding close_session_if_inactive starts_new_session
close_session_if_inactive_lem now history state = elim (Bool-cases (is_due now state)) [
  | inl e ↦
      (let s = start_new_session-IsClosed history state (ground (arith, e)) in
        let t : (state.in_match
              || leb_ℤ (games_played state) (pos 0)
              || leb_ℤ state.last_match_ended_at_unix (pos 0)
              || not (ltb_ℤ (pos 7200) (now -ℤ state.last_match_ended_at_unix)))
            ≡ false =
          ground (arith, e) in
        rw (t, e) (s.0, inr s))
  | inr e ↦
      (let t : (state.in_match
              || leb_ℤ (games_played state) (pos 0)
              || leb_ℤ state.last_match_ended_at_unix (pos 0)
              || not (ltb_ℤ (pos 7200) (now -ℤ state.last_match_ended_at_unix)))
            ≡ true =
          ground (arith, e) in
        rw (t, e) (refl, inl (refl, refl)))
]

-- ===== src/Matches/Validation.antt =====
-- What `ClassifyMatchEnd` decides, and that a match which may be left early counts.
use omni_stats.Prelude.{
  String, ◌≡◌, refl, sym, ap, ◌∙◌, inl, inr, ◌⊎◌, Bool, true, false, ◌&&◌, ◌||◌, not, Option, none,
  some, arith, ltb, str_eq, if◌then◌else◌, is_some, Bool-cases, Option-cases,
}
use omni_stats.Prelude.Int.{ℤ, negsuc, eqb_ℤ, eq_of_parts}
use omni_stats.Playlists
use omni_stats.Playlists.{
  Info, PlaylistClass, MmrCategory, is_tracked_competitive_mode, class_eq, find, playlists,
}
use omni_stats.Playlists.Facts.{find_lem, is_competitive}
use omni_stats.Matches.{
  MatchState, CapturedMatch, MatchEndDecision, void_decision, is_team, lobby_was_full,
  legacy_expected_team_size_for_mode, infer_mode_from_match_state, capture_match,
  classify_match_end, classify_lobby, classify_played, is_valid_early_competitive_exit,
  is_tracked_ranked_early_exit_mode,
}

-- The playlist does not keep the match out of the record: an id is a known one that is recordable,
-- and without an id no fallback says otherwise.
abbrev pub is_recordable : CapturedMatch → Bool
is_recordable m =
    (if Playlists.has_authoritative_id m.playlist_id
      then Playlists.is_known m.playlist_id
      else not m.fallback_non_recordable_context)
    && not (is_some (Playlists.non_recordable_reason m.playlist_id))

-- The test of the lobby: without an id, a mode of known team size needs teams that were full once, and
-- any other match passes.
abbrev pub lobby_passes : CapturedMatch → Bool
lobby_passes m =
    let expected = legacy_expected_team_size_for_mode m.mode in
    Playlists.has_authoritative_id m.playlist_id
    || not (ltb 0 expected)
    || lobby_was_full m.legacy_lobby_was_ever_full m.legacy_max_team_players_seen expected

-- Played by the local player, on a team, to a winner.
abbrev pub was_played : CapturedMatch → ℤ → Bool
was_played m winner_team =
    is_team winner_team && is_team m.my_team && m.round_ever_started && m.local_player_was_active

abbrev pub counted : CapturedMatch → ℤ → MatchEndDecision
counted m winner_team = record {
  should_count = true;
  should_persist = true;
  i_won = eqb_ℤ winner_team m.my_team;
  result_text = if eqb_ℤ winner_team m.my_team then "Win" else "Loss";
  void_reason = "";
}

-- A decision that is `counted` where the test holds and void where it fails.
abbrev Decides : CapturedMatch → ℤ → Bool → MatchEndDecision → Type 0
Decides m winner_team test d =
    (d.should_count ≡ test) × ((d ≡ counted m winner_team) ⊎ (d ≡ void_decision d.void_reason))

classify_lobby-Decides :
    (m : CapturedMatch) (w : ℤ) → Decides m w (lobby_passes m) (classify_lobby m w)
unfolding classify_lobby
classify_lobby-Decides m w =
    let expected = legacy_expected_team_size_for_mode m.mode in
    let full =
      lobby_was_full m.legacy_lobby_was_ever_full m.legacy_max_team_players_seen expected in
    elim (Bool-cases (Playlists.has_authoritative_id m.playlist_id)) [
      | inl a ↦ rw a (refl, inl refl)
      | inr a ↦ rw a (elim (Bool-cases (ltb 0 expected)) [
        | inr l ↦ rw l (refl, inl refl)
        | inl l ↦ rw l (elim (Bool-cases full) [
          | inl f ↦ rw f (refl, inl refl)
          | inr f ↦ rw f (refl, inr refl)
        ])
      ])
    ]

classify_played-Decides :
    (m : CapturedMatch) (w : ℤ)
    → Decides m w (was_played m w && lobby_passes m) (classify_played m w)
unfolding classify_played
classify_played-Decides m w = elim (Bool-cases (is_team w)) [
  | inr e ↦ rw e (refl, inr refl)
  | inl e ↦ rw e (elim (Bool-cases (is_team m.my_team)) [
    | inr t ↦ rw t (refl, inr refl)
    | inl t ↦ rw t (elim (Bool-cases m.round_ever_started) [
      | inr r ↦ simp r (refl, inr refl)
      | inl r ↦ simp r (elim (Bool-cases m.local_player_was_active) [
        | inr l ↦ simp l (refl, inr refl)
        | inl l ↦ simp l (classify_lobby-Decides m w)
      ])
    ])
  ])
]

-- `ClassifyMatchEnd` counts and keeps a match exactly when it is no replay of another, is recordable,
-- was played and passes the test of the lobby; the result is then a win exactly when the winner is the
-- local team. The test of the lobby asks for teams that were full once, only where there is no
-- playlist id and the mode has a known team size; any other lobby passes it, full or not. Every match
-- that is not counted is void: neither counted nor kept, and no win.
pub classify_match_end_lem :
    (m : CapturedMatch) (winner_team : ℤ)
    → let decision = classify_match_end m winner_team in
      (decision.should_count ≡ (
        not m.non_live_replay && is_recordable m && (was_played m winner_team && lobby_passes m)))
      × ((decision ≡ counted m winner_team) ⊎ (decision ≡ void_decision decision.void_reason))
unfolding classify_match_end
classify_match_end_lem m w =
    let reason = Playlists.non_recordable_reason m.playlist_id in
    elim (Bool-cases m.non_live_replay) [
      | inl e ↦ simp e (refl, inr refl)
      | inr e ↦ simp e (elim (Bool-cases (Playlists.has_authoritative_id m.playlist_id)) [
        | inl a ↦ rw a (elim (Bool-cases (Playlists.is_known m.playlist_id)) [
          | inr k ↦ rw k (refl, inr refl)
          | inl k ↦ rw k (elim (Option-cases reason) [
            | inr (r, t) ↦ rw t (refl, inr refl)
            | inl t ↦ rw t (rw a (rw a at (classify_played-Decides m w)))
          ])
        ])
        | inr a ↦ rw a (elim (Bool-cases m.fallback_non_recordable_context) [
          | inl f ↦ simp f (elim (Option-cases reason) [
            | inr (r, t) ↦ rw t (refl, inr refl)
            | inl t ↦ rw t (rw a (simp f (refl, inr refl)))
          ])
          | inr f ↦ simp f (elim (Option-cases reason) [
            | inr (r, t) ↦ rw t (refl, inr refl)
            | inl t ↦ rw t (rw a (simp f (rw a at (classify_played-Decides m w))))
          ])
        ])
      ])
    ]

-- A mode that allows an early exit is a tracked competitive one.
early_exit-competitive :
    (mode : String)
    → is_tracked_ranked_early_exit_mode mode ≡ true
    → is_tracked_competitive_mode mode ≡ true
unfolding is_tracked_ranked_early_exit_mode is_tracked_competitive_mode
early_exit-competitive mode h = ground arith

untracked_texts :
    (is_tracked_ranked_early_exit_mode "unknown" ≡ false)
    × (is_tracked_ranked_early_exit_mode "casual" ≡ false)
    × (is_tracked_ranked_early_exit_mode "" ≡ false)
unfolding is_tracked_ranked_early_exit_mode
untracked_texts = (refl, refl, refl)

competitive-recordable :
    (c : PlaylistClass) → is_competitive c ≡ true → class_eq c PlaylistClass.non_recordable ≡ false
competitive-recordable c h = ground arith

-- A playlist whose mode is tracked can be recorded.
tracked_info :
    (id : ℤ) (info : Info)
    → find id ≡ some info
    → is_tracked_ranked_early_exit_mode info.canonical_mode ≡ true
    → info.non_recordable_reason ≡ none
tracked_info id info e h =
    let facts = find_lem id info e in
    let tracked = early_exit-competitive info.canonical_mode h in
    let competitive : is_competitive info.playlist_class ≡ true = sym facts.1 ∙ tracked in
    let no_reason : is_some info.non_recordable_reason ≡ false =
      facts.0 ∙ competitive-recordable info.playlist_class competitive in
    elim (Option-cases info.non_recordable_reason) [ inl n ↦ n | inr (r, t) ↦ cc ]

tracked_id :
    (id : ℤ) (o : Option Info)
    → find id ≡ o
    → is_tracked_ranked_early_exit_mode (Playlists.canonical_mode id) ≡ true
    → (Playlists.is_known id ≡ true) × (Playlists.non_recordable_reason id ≡ none)
tracked_id id none e h =
    let bad : false ≡ true = sym untracked_texts.2 ∙ (rw e at h) in ground (arith, bad)
tracked_id id (some info) e h = rw e (refl, tracked_info id info e (rw e at h))

early_exit_facts :
    (now : ℤ) (state : MatchState) (mode reason : String)
    → (is_valid_early_competitive_exit state mode reason).0 ≡ true
    → let m = capture_match now state in
      ((is_valid_early_competitive_exit state mode reason).1 ≡ m.mode)
      × (is_tracked_ranked_early_exit_mode m.mode ≡ true)
      × (m.non_live_replay ≡ false)
      × (is_team m.my_team && m.round_ever_started && m.local_player_was_active ≡ true)
      × (lobby_passes m ≡ true)
unfolding is_valid_early_competitive_exit capture_match
early_exit_facts now state mode reason h = ground arith

tracked-known :
    (mode : String)
    → is_tracked_ranked_early_exit_mode (if str_eq mode "" then "unknown" else mode) ≡ true
    → is_tracked_ranked_early_exit_mode mode ≡ true
tracked-known mode h = elim (Bool-cases (str_eq mode "")) [
  | inl e ↦ (let bad : false ≡ true = sym untracked_texts.0 ∙ (rw e at h) in ground (arith, bad))
  | inr e ↦ rw e at h
]

untracked_context :
    (casual : Bool)
    → is_tracked_ranked_early_exit_mode (if casual then "casual" else "unknown") ≡ false
untracked_context true = untracked_texts.1
untracked_context false = untracked_texts.0

-- Without an id there is no reason of a playlist.
no_id-reason :
    (id : ℤ) → Playlists.has_authoritative_id id ≡ false → Playlists.non_recordable_reason id ≡ none
unfolding find playlists
no_id-reason id h = let e : id ≡ negsuc 0 = eq_of_parts id (negsuc 0) (ground arith) in rw e refl

-- Where the mode is tracked, the captured match is recordable.
tracked-recordable :
    (now : ℤ) (state : MatchState)
    → is_tracked_ranked_early_exit_mode (capture_match now state).mode ≡ true
    → is_recordable (capture_match now state) ≡ true
unfolding capture_match infer_mode_from_match_state
tracked-recordable now state h =
    elim (Bool-cases (Playlists.has_authoritative_id state.playlist_id)) [
      | inl a ↦
          (let k =
              tracked_id state.playlist_id (find state.playlist_id) refl
                (tracked-known (Playlists.canonical_mode state.playlist_id) (rw a at h)) in
            rw a (rw k.0 (rw k.1 refl)))
      | inr a ↦ rw a (
          rw (no_id-reason state.playlist_id a)
            (elim (Bool-cases state.fallback_non_recordable_context) [
              | inr f ↦ simp f refl
              | inl f ↦
                  (let bad : false ≡ true =
                      sym (untracked_context state.fallback_casual_context)
                      ∙ (simp f at (rw a at h)) in
                    ground (arith, bad))
            ]))
    ]

-- Where `IsValidEarlyCompetitiveExit` lets a match that is left early pass, the mode that it writes is
-- the mode of the match captured from the same state, and `ClassifyMatchEnd` counts and keeps that
-- match for every winner that is a team, as a win exactly when this is the local team.
pub is_valid_early_competitive_exit_lem :
    (now : ℤ) (state : MatchState) (mode reason : String) (winner_team : ℤ)
    → (is_valid_early_competitive_exit state mode reason).0 ≡ true
    → is_team winner_team ≡ true
    → let exit = is_valid_early_competitive_exit state mode reason in
      let m = capture_match now state in
      (exit.1 ≡ m.mode) × ((classify_match_end m winner_team) ≡ counted m winner_team)
is_valid_early_competitive_exit_lem now state mode reason w h t =
    let m = capture_match now state in
    let facts = early_exit_facts now state mode reason h in
    let recordable = tracked-recordable now state facts.1 in
    let decided = classify_match_end_lem m w in
    let counts : (classify_match_end m w).should_count ≡ true =
      ground (arith, facts, recordable, decided, t) in
    (
      facts.0,
      elim decided.1 [
        | inl c ↦ c
        | inr v ↦
            (let bad : true ≡ false = sym counts ∙ ap (λ d. d.should_count) v in
              ground (arith, bad))
      ],
    )

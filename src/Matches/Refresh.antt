-- ===== src/Matches/Refresh.antt =====
-- `BuildPostMatchMmrRefresh` of TelemetryReducerMatchValidation.cpp: the question for the ratings after
-- a match. `state` is not used there and is left out.
use omni_stats.Prelude.{
  ◌≡◌, refl, subst, inl, inr, ◌⊎◌, String, Bool, true, false, ◌&&◌, ◌||◌, not, Option, none, some,
  arith, str_eq, if◌then◌else◌, Bool-cases, Option-cases,
}
use omni_stats.Prelude.Int.{ℤ, pos, negsuc, ltb_ℤ, ◌<ℤ◌}
use omni_stats.Prelude.Maps.{lookup}
use omni_stats.Playlists
use omni_stats.Playlists.{
  Info, PlaylistClass, MmrCategory, is_tracked_competitive_mode, string_to_mmr_category, find,
  class_eq,
}
use omni_stats.Playlists.Facts.{find_lem, is_competitive}
use omni_stats.Matches.{PlayerData, CapturedMatch}

pub record PostMatchMmrRefresh : Type 0 where
  pub primary_id : String
  pub name : String
  pub match_guid : String
  pub playlist : String
  pub previous_mmr : ℤ
  pub previous_matches : ℤ
  pub previous_mmr_is_playlist_specific : Bool
  pub won : Bool
  pub provisional_immediately : Bool

-- `previousMmr`, `previousMatches` and whether the rating is of the playlist.
pub record Previous : Type 0 where
  pub mmr : ℤ
  pub matches : ℤ
  pub is_specific : Bool

abbrev pub or_else : ℤ → Option ℤ → ℤ
or_else d none = d
or_else d (some n) = n

-- The lookup of a rating: only a positive one counts.
abbrev pub positive : Option ℤ → Option ℤ
positive none = none
positive (some n) = if ltb_ℤ (pos 0) n then some n else none

-- A rating that was found, or else the other one.
abbrev pub specific_or : Previous → ℤ → Option ℤ → Previous
specific_or other matches none = other
specific_or other matches (some n) = record { mmr = n; matches = matches; is_specific = true }

abbrev pub from_player : PlayerData → String → Previous
from_player player key =
    let matches = or_else (negsuc 0) (lookup key player.playlist_matches) in
    specific_or (record { mmr = player.mmr; matches = matches; is_specific = false }) matches
      (positive (lookup key player.playlists))

abbrev pub captured_mmr : CapturedMatch → String → Option ℤ
captured_mmr m key = if m.has_pre_match_mmr then lookup key m.pre_match_mmr.playlist_mmrs else none

unfoldable pub previous_of : CapturedMatch → PlayerData → String → Previous
previous_of m player key =
    specific_or (from_player player key)
      (or_else (negsuc 0) (lookup key m.pre_match_mmr.playlist_matches))
      (positive (captured_mmr m key))

-- The guards before the key is looked up.
unfoldable pub is_refused : CapturedMatch → Bool
is_refused m =
    let has_id = Playlists.has_authoritative_id m.playlist_id in
    let authoritative_casual = has_id && Playlists.is_casual m.playlist_id in
    (not has_id && (m.fallback_casual_context || m.fallback_non_recordable_context))
    || (has_id && not (Playlists.is_known m.playlist_id))
    || str_eq m.match_guid ""
    || str_eq m.my_primary_id ""
    || (not authoritative_casual && not (is_tracked_competitive_mode m.mode))

abbrev pub rating_key : CapturedMatch → String
rating_key m =
    if Playlists.has_authoritative_id m.playlist_id then Playlists.mmr_key m.playlist_id else m.mode

abbrev pub refresh_for : CapturedMatch → Bool → PlayerData → PostMatchMmrRefresh
refresh_for m won player =
    let previous = previous_of m player (rating_key m) in
    record {
      primary_id = m.my_primary_id;
      name = player.name;
      match_guid = m.match_guid;
      playlist = rating_key m;
      previous_mmr = previous.mmr;
      previous_matches = previous.matches;
      previous_mmr_is_playlist_specific = previous.is_specific;
      won = won;
      provisional_immediately = false;
    }

-- `none` where the code returns false.
unfoldable pub build_post_match_mmr_refresh : CapturedMatch → Bool → Option PostMatchMmrRefresh
build_post_match_mmr_refresh m won =
    if is_refused m
    then none
    else if str_eq (rating_key m) ""
    then none
    else elim (lookup m.my_primary_id m.roster) [
      | none ↦ none
      | some player ↦ some (refresh_for m won player)
    ]

-- A rating of the playlist itself is positive.
abbrev pub IsPlausible : Bool → ℤ → Type 0
IsPlausible is_specific mmr = (is_specific ≡ false) ⊎ (pos 0 <ℤ mmr)

specific_or-IsPlausible :
    (other : Previous) (matches : ℤ) (o : Option ℤ)
    → IsPlausible other.is_specific other.mmr
    → let p = specific_or other matches (positive o) in IsPlausible p.is_specific p.mmr
specific_or-IsPlausible other matches none h = h
specific_or-IsPlausible other matches (some n) h = elim (Bool-cases (ltb_ℤ (pos 0) n)) [
  | inl e ↦ rw e (inr (ground (arith, e)))
  | inr e ↦ rw e h
]

previous_of-IsPlausible :
    (m : CapturedMatch) (player : PlayerData) (key : String)
    → IsPlausible (previous_of m player key).is_specific (previous_of m player key).mmr
unfolding previous_of
previous_of-IsPlausible m player key =
    let matches = or_else (negsuc 0) (lookup key player.playlist_matches) in
    specific_or-IsPlausible (from_player player key)
      (or_else (negsuc 0) (lookup key m.pre_match_mmr.playlist_matches)) (captured_mmr m key)
      (specific_or-IsPlausible (record { mmr = player.mmr; matches = matches; is_specific = false })
        matches (lookup key player.playlists) (inl refl))

-- A key of a playlist with a rank of its own or a casual one, or a tracked mode where there is no id.
abbrev pub IsRated : CapturedMatch → String → Type 0
IsRated m key =
    ((info : Info) × (find m.playlist_id ≡ some info)
      × (is_competitive info.playlist_class || class_eq info.playlist_class PlaylistClass.casual
          ≡ true)
      × (string_to_mmr_category key ≡ info.mmr_category))
    ⊎ ((Playlists.has_authoritative_id m.playlist_id ≡ false)
        × (m.fallback_casual_context ≡ false)
        × (m.fallback_non_recordable_context ≡ false)
        × (is_tracked_competitive_mode key ≡ true))

known_if_id :
    (m : CapturedMatch)
    → is_refused m ≡ false
    → Playlists.has_authoritative_id m.playlist_id ≡ true
    → Playlists.is_known m.playlist_id ≡ true
unfolding is_refused
known_if_id m h a = ground (arith, h, a)

tracked_if_no_id :
    (m : CapturedMatch)
    → is_refused m ≡ false
    → Playlists.has_authoritative_id m.playlist_id ≡ false
    → (m.fallback_casual_context ≡ false)
      × (m.fallback_non_recordable_context ≡ false)
      × (is_tracked_competitive_mode m.mode ≡ true)
unfolding is_refused
tracked_if_no_id m h a = ground (arith, h, a)

known-IsRated :
    (m : CapturedMatch) (info : Info)
    → Playlists.has_authoritative_id m.playlist_id ≡ true
    → find m.playlist_id ≡ some info
    → str_eq (rating_key m) "" ≡ false
    → IsRated m (rating_key m)
known-IsRated m info a f k =
    let facts = find_lem m.playlist_id info f in
    let key : rating_key m ≡ info.mmr_key = rw (a, f) refl in
    inl (info, f, ground (arith, facts.3, rw key at k), rw key facts.2)

rating_key-IsRated :
    (m : CapturedMatch)
    → is_refused m ≡ false
    → str_eq (rating_key m) "" ≡ false
    → IsRated m (rating_key m)
rating_key-IsRated m h k = elim (Bool-cases (Playlists.has_authoritative_id m.playlist_id)) [
  | inl a ↦ elim (Option-cases (find m.playlist_id)) [
    | inl f ↦ (let bad : false ≡ true = rw f at (known_if_id m h a) in ground (arith, bad))
    | inr (info, f) ↦ known-IsRated m info a f k
  ]
  | inr a ↦ (let t = tracked_if_no_id m h a in inr (a, t.0, t.1, rw a t.2))
]

-- The refresh that is asked for, with what has been checked.
built :
    (m : CapturedMatch) (won : Bool) (r : PostMatchMmrRefresh)
    → build_post_match_mmr_refresh m won ≡ some r
    → (is_refused m ≡ false)
      × (str_eq (rating_key m) "" ≡ false)
      × ((player : PlayerData) × (lookup m.my_primary_id m.roster ≡ some player)
          × (refresh_for m won player ≡ r))
unfolding build_post_match_mmr_refresh
built m won r h = elim (Bool-cases (is_refused m)) [
  | inl b ↦ (let bad : none ≡ some r = rw b at h in ground (arith, bad))
  | inr b ↦ elim (Bool-cases (str_eq (rating_key m) "")) [
    | inl k ↦ (let bad : none ≡ some r = rw (b, k) at h in ground (arith, bad))
    | inr k ↦ elim (Option-cases (lookup m.my_primary_id m.roster)) [
      | inl l ↦ (let bad : none ≡ some r = rw (b, k, l) at h in ground (arith, bad))
      | inr (player, l) ↦
          (let e : some (refresh_for m won player) ≡ some r = rw (b, k, l) at h in
            (b, k, (player, l, cc)))
    ]
  ]
]

-- A refresh is asked for a rated playlist only: one that `Find` knows by the match's id and that is
-- ranked, of a tournament or casual, under a key of its category; or without an id, and with no
-- casual or non-recordable context, a tracked competitive mode. It is for this match, its result and
-- the local player, who is on the roster; and a previous rating that is said to be the playlist's own
-- is positive.
pub build_post_match_mmr_refresh_lem :
    (m : CapturedMatch) (won : Bool) (r : PostMatchMmrRefresh)
    → build_post_match_mmr_refresh m won ≡ some r
    → IsRated m r.playlist
      × (r.match_guid ≡ m.match_guid)
      × (r.won ≡ won)
      × (r.primary_id ≡ m.my_primary_id)
      × ((player : PlayerData) × (lookup r.primary_id m.roster ≡ some player)
          × (r.name ≡ player.name))
      × IsPlausible r.previous_mmr_is_playlist_specific r.previous_mmr
build_post_match_mmr_refresh_lem m won r h =
    let (b, k, (player, l, e)) = built m won r h in
    subst
      (λ x.
        IsRated m x.playlist
        × (x.match_guid ≡ m.match_guid)
        × (x.won ≡ won)
        × (x.primary_id ≡ m.my_primary_id)
        × ((player : PlayerData) × (lookup x.primary_id m.roster ≡ some player)
            × (x.name ≡ player.name))
        × IsPlausible x.previous_mmr_is_playlist_specific x.previous_mmr)
      e
      (
        rating_key-IsRated m b k,
        refl,
        refl,
        refl,
        (player, l, refl),
        previous_of-IsPlausible m player (rating_key m),
      )

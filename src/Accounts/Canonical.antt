-- ===== src/Accounts/Canonical.antt =====
-- Reading back the identity that was made.
use omni_stats.Prelude.{
  ◌≤◌, ◌≡◌, refl, sym, ap, ◌∙◌, subst, inl, inr, true, false, ◌||◌, [], ◌∷◌, ◌++◌, Option, none,
  some, arith, ltb, is_empty, any_of, all_of, length, drop, Bool-cases, Option-cases,
}
use omni_stats.Prelude.Text.{
  Text, is_digit, is_xdigit, is_printed, split_where, lowered, trim, up_to, is_char, to_lower,
  lowered_idem, trim_printed, up_to-absent,
}
use omni_stats.Accounts.{
  Platform, epic, steam, play_station, xbox, switch, Identity, max_input_length, platform_token,
  parse_platform, ignores_case, normalize_account_id, make_identity, is_valid_account_id,
  checked_identity, with_platform, split_identity, from_primary_id, primary_id_of,
  canonical_primary_id,
}

digits-hex : (s : Text) → all_of is_digit s ≡ true → all_of is_xdigit s ≡ true
digits-hex [] h = refl
digits-hex (c ∷ s) h = ground (arith, digits-hex s)

valid-hex :
    (p : Platform) (a : Text)
    → is_valid_account_id p a ≡ true
    → (all_of is_xdigit a ≡ true) × (length a ≤ 32)
unfolding is_valid_account_id
valid-hex epic a h = ground (arith, h)
valid-hex steam a h = ground (arith, h, digits-hex a)
valid-hex play_station a h = ground (arith, h, digits-hex a)
valid-hex xbox a h = ground (arith, h, digits-hex a)
valid-hex switch a h = ground (arith, h)

hex-printed : (s : Text) → all_of is_xdigit s ≡ true → all_of is_printed s ≡ true
hex-printed [] h = refl
hex-printed (c ∷ s) h = ground (arith, hex-printed s)

hex-no_bar : (s : Text) → all_of is_xdigit s ≡ true → any_of (is_char b'|') s ≡ false
hex-no_bar [] h = refl
hex-no_bar (c ∷ s) h = ground (arith, hex-no_bar s)

token_printed :
    (p : Platform) (a : Text)
    → all_of is_printed a ≡ true
    → all_of is_printed (platform_token p ++ b'|' ∷ a) ≡ true
token_printed epic a h = h
token_printed steam a h = h
token_printed play_station a h = h
token_printed xbox a h = h
token_printed switch a h = h

token_split :
    (p : Platform) (a : Text)
    → split_where (is_char b'|') (platform_token p ++ b'|' ∷ a) ≡ some (platform_token p, b'|' ∷ a)
token_split epic a = refl
token_split steam a = refl
token_split play_station a = refl
token_split xbox a = refl
token_split switch a = refl

token_length :
    (p : Platform) (a : Text)
    → length a ≤ 32
    → (is_empty (platform_token p ++ b'|' ∷ a)
        || ltb max_input_length (length (platform_token p ++ b'|' ∷ a)))
      ≡ false
token_length epic a h = ground (arith, h)
token_length steam a h = ground (arith, h)
token_length play_station a h = ground (arith, h)
token_length xbox a h = ground (arith, h)
token_length switch a h = ground (arith, h)

-- `ParsePlatform` reads every token that `PlatformToken` writes.
parse_platform-token : (p : Platform) → parse_platform (platform_token p) ≡ some p
unfolding parse_platform lowered to_lower
parse_platform-token epic = refl
parse_platform-token steam = refl
parse_platform-token play_station = refl
parse_platform-token xbox = refl
parse_platform-token switch = refl

-- A valid and normal id is read back from the identity that was made of it.
made_identity :
    (p : Platform) (a : Text)
    → is_valid_account_id p a ≡ true
    → normalize_account_id p a ≡ a
    → from_primary_id (make_identity p a).primary_id ≡ some (make_identity p a)
unfolding from_primary_id
made_identity p a v n =
    let hex = valid-hex p a v in
    rw
      (
        trim_printed _ (token_printed p a (hex-printed a hex.0)),
        token_length p a hex.1,
        token_split p a,
        parse_platform-token p,
        up_to-absent b'|' a (hex-no_bar a hex.0),
        n,
        v,
      )
      refl

normalize_idem :
    (p : Platform) (s : Text)
    → is_valid_account_id p (normalize_account_id p s) ≡ true
    → normalize_account_id p (normalize_account_id p s) ≡ normalize_account_id p s
normalize_idem p s v =
    let t = normalize_account_id p s in
    let printed : trim t ≡ t = trim_printed t (hex-printed t (valid-hex p t v).0) in
    elim (Bool-cases (ignores_case p)) [
      | inl e ↦ rw (e, rw e at printed, lowered_idem (trim s)) refl
      | inr e ↦ rw (e, rw e at printed) refl
    ]

-- An identity that is read again, with a valid id.
abbrev pub IsStable : Identity → Type 0
IsStable i =
    (from_primary_id i.primary_id ≡ some i)
    × (is_valid_account_id i.platform i.account_id ≡ true)
    × (length i.primary_id ≤ 40)

short_token : (p : Platform) (a : Text) → length a ≤ 32 → length (platform_token p ++ b'|' ∷ a) ≤ 40
short_token epic a h = omega (arith, h)
short_token steam a h = omega (arith, h)
short_token play_station a h = omega (arith, h)
short_token xbox a h = omega (arith, h)
short_token switch a h = omega (arith, h)

pub made-IsStable :
    (p : Platform) (rest : Text)
    → is_valid_account_id p (normalize_account_id p rest) ≡ true
    → IsStable (make_identity p (normalize_account_id p rest))
made-IsStable p rest v =
    let a = normalize_account_id p rest in
    (made_identity p a v (normalize_idem p rest v), v, short_token p a (valid-hex p a v).1)

checked-IsStable :
    (p : Platform) (rest : Text) (i : Identity)
    → checked_identity p (normalize_account_id p rest) ≡ some i
    → IsStable i
checked-IsStable p rest i h =
    let a = normalize_account_id p rest in
    elim (Bool-cases (is_valid_account_id p a)) [
      | inl v ↦
          (let e : some (make_identity p a) ≡ some i = rw v at h in
            let made : make_identity p a ≡ i = cc in subst IsStable made (made-IsStable p rest v))
      | inr v ↦ (let bad : none ≡ some i = rw v at h in ground (arith, bad))
    ]

with_platform-IsStable :
    (o : Option Platform) (rest : Text) (i : Identity) → with_platform o rest ≡ some i → IsStable i
with_platform-IsStable none rest i h = ground (arith, h)
with_platform-IsStable (some p) rest i h = checked-IsStable p (up_to (is_char b'|') rest) i h

split-IsStable : (o : Option (Text × Text)) (i : Identity) → split_identity o ≡ some i → IsStable i
split-IsStable none i h = ground (arith, h)
split-IsStable (some (a, b)) i h = with_platform-IsStable (parse_platform a) (drop 1 b) i h

-- An identity that `FromPrimaryId` reads from any text has a valid account id, a primary id of at most
-- 40 bytes, and is read again, the same, from that primary id.
pub from_primary_id-IsStable :
    (primary_id : Text) (i : Identity) → from_primary_id primary_id ≡ some i → IsStable i
unfolding from_primary_id
from_primary_id-IsStable s i h =
    let refuses = is_empty (trim s) || ltb max_input_length (length (trim s)) in
    elim (Bool-cases refuses) [
      | inl e ↦ (let bad : none ≡ some i = rw e at h in ground (arith, bad))
      | inr e ↦ split-IsStable (split_where (is_char b'|') (trim s)) i (rw e at h)
    ]

empty_refused : from_primary_id [] ≡ none
unfolding from_primary_id
empty_refused = refl

-- `CanonicalPrimaryId` does not change what it gave before, for any text.
pub canonical_primary_id_idem :
    (primary_id : Text)
    → canonical_primary_id (canonical_primary_id primary_id) ≡ canonical_primary_id primary_id
unfolding canonical_primary_id
canonical_primary_id_idem s = elim (Option-cases (from_primary_id s)) [
  | inl e ↦
      (let gone : canonical_primary_id s ≡ [] = ap primary_id_of e in
        ap canonical_primary_id gone ∙ ap primary_id_of empty_refused ∙ sym gone)
  | inr (i, e) ↦
      (let kept : canonical_primary_id s ≡ i.primary_id = ap primary_id_of e in
        ap canonical_primary_id kept
        ∙ ap primary_id_of (from_primary_id-IsStable s i e).0
        ∙ sym kept)
]

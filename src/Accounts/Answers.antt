-- ===== src/Accounts/Answers.antt =====
-- What `ParseManualInput` answers.
use omni_stats.Prelude.{
  ◌≡◌, refl, subst, sym, inl, inr, ◌⊎◌, Bool, true, false, ◌&&◌, not, List, [], ◌∷◌, Option, none,
  some, arith, ltb, if◌then◌else◌, is_empty, Bool-cases, length, drop,
}
use omni_stats.Prelude.Text.{Text, codes, text_eq, split_where, lowered, trim, is_char}
use omni_stats.Accounts.{
  Platform, steam, Identity, max_input_length, parse_platform, normalize_account_id, make_identity,
  is_valid_account_id,
}
use omni_stats.Accounts.Canonical.{IsStable, made-IsStable}
use omni_stats.Accounts.Input.{
  InputError, platform_mismatch, unresolvable_url, too_long, empty_input, ParseResult, fail,
  success, is_error, platform_eq, parse_raw_id, require_steam, steam_link, tracker_link, parse_link,
  looks_like_url, embedded, parse_id, parse_manual_input,
}

-- Either an error and no identity, or an identity of the platform that is read back, and no error.
abbrev pub Answers : Platform → ParseResult → Type 0
Answers p r =
    ((r ≡ fail r.error) × (is_error r.error ≡ true))
    ⊎ ((i : Identity) × (r ≡ success i) × (i.platform ≡ p) × IsStable i)

fails : (p : Platform) (e : InputError) → is_error e ≡ true → Answers p (fail e)
fails p e h = inl (refl, h)

parse_raw_id-Answers : (p : Platform) (raw : Text) → Answers p (parse_raw_id p raw)
unfolding parse_raw_id
parse_raw_id-Answers p raw =
    let id = normalize_account_id p raw in
    elim (Bool-cases (is_empty id)) [
      | inl e ↦ rw e (fails p _ refl)
      | inr e ↦ rw e (elim (Bool-cases (is_valid_account_id p id)) [
        | inl v ↦ rw v (inr (make_identity p id, refl, refl, made-IsStable p raw v))
        | inr v ↦ rw v (fails p _ (ground arith))
      ])
    ]

platform_eq-eq : (p q : Platform) → platform_eq p q ≡ true → p ≡ q
platform_eq-eq p q h = ground arith

require_steam-Answers : (p : Platform) (id : Text) → Answers p (require_steam p id)
unfolding require_steam
require_steam-Answers p id = elim (Bool-cases (platform_eq p steam)) [
  | inr e ↦ rw e (fails p _ refl)
  | inl e ↦ rw e (elim (Bool-cases (is_valid_account_id steam id)) [
    | inr v ↦ rw v (fails p _ refl)
    | inl v ↦ rw v (
        subst (λ q. Answers q (parse_raw_id steam id)) (sym (platform_eq-eq p steam e))
          (parse_raw_id-Answers steam id))
  ])
]

steam_link-Answers : (p : Platform) (path : List Text) → Answers p (steam_link p path)
unfolding steam_link
steam_link-Answers p [] = fails p _ refl
steam_link-Answers p (kind ∷ []) = fails p _ refl
steam_link-Answers p (kind ∷ id ∷ rest) =
    elim (Bool-cases (text_eq (lowered kind) (codes "profiles"))) [
      | inl e ↦ rw e (require_steam-Answers p id)
      | inr e ↦ rw e (either (text_eq (lowered kind) (codes "id") && not (platform_eq p steam)))
    ]
  where
    either : (b : Bool) → Answers p (if b then fail platform_mismatch else fail unresolvable_url)
    either true = fails p _ refl
    either false = fails p _ refl

tracker_link-Answers : (p : Platform) (path : List Text) → Answers p (tracker_link p path)
unfolding tracker_link
tracker_link-Answers p [] = fails p _ refl
tracker_link-Answers p (part ∷ []) = fails p _ refl
tracker_link-Answers p (part ∷ a ∷ []) = fails p _ refl
tracker_link-Answers p (part ∷ a ∷ b ∷ rest) =
    elim (Bool-cases (text_eq (lowered part) (codes "profile"))) [
      | inr e ↦ rw e (tracker_link-Answers p (a ∷ b ∷ rest))
      | inl e ↦ rw e (elim (Bool-cases (text_eq (lowered a) (codes "steam"))) [
        | inl t ↦ rw t (require_steam-Answers p b)
        | inr t ↦ rw t (fails p _ refl)
      ])
    ]

choose-Answers :
    (p : Platform) (b : Bool) (r s : ParseResult)
    → Answers p r
    → Answers p s
    → Answers p (if b then r else s)
choose-Answers p true r s h k = h
choose-Answers p false r s h k = k

parse_link-Answers : (p : Platform) (input : Text) → Answers p (parse_link p input)
unfolding parse_link
parse_link-Answers p input =
    choose-Answers p _ _ _ (steam_link-Answers p _)
      (choose-Answers p _ _ _ (tracker_link-Answers p _) (fails p _ refl))

parse_id-Answers :
    (p : Platform) (input : Text) (o : Option (Text × Text)) → Answers p (parse_id p input o)
parse_id-Answers p input none = parse_raw_id-Answers p input
parse_id-Answers p input (some (a, b)) = embedded-Answers (parse_platform a)
  where
    embedded-Answers : (o : Option Platform) → Answers p (embedded p o (drop 1 b))
    embedded-Answers none = fails p _ refl
    embedded-Answers (some q) = choose-Answers p _ _ _ (parse_raw_id-Answers p _) (fails p _ refl)

-- For every platform and input, `ParseManualInput` gives either an error and no identity, or no error
-- and an identity of the platform that the user chose, with a valid account id and a primary id that
-- `FromPrimaryId` reads back as the same identity.
pub parse_manual_input-Answers :
    (platform : Platform) (text : Text) → Answers platform (parse_manual_input platform text)
unfolding parse_manual_input
parse_manual_input-Answers p text =
    let input = trim text in
    choose-Answers p (ltb max_input_length (length text)) _ _ (fails p too_long refl) (
      choose-Answers p (is_empty input) _ _ (fails p empty_input refl) (
        choose-Answers p (looks_like_url input) _ _ (parse_link-Answers p input)
          (parse_id-Answers p input (split_where (is_char b'|') input))))

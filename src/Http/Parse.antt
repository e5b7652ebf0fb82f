-- ===== src/Http/Parse.antt =====
-- What `ParseUrl` guarantees of its parts, and ports that are printed and read again.
use omni_stats.Prelude.{
  ◌≡◌, refl, ap, ◌∙◌, inl, inr, Bool, true, false, ◌||◌, not, [], ◌∷◌, ◌++◌, Option, none, some,
  arith, Bool-cases, Option-cases, is_empty, drop, ◌==◌,
}
use omni_stats.Prelude.Text.{
  lowered, trim, up_to, is_char, lowered_idem, Text, codes, starts_with, split_at_text, split_where,
}
use omni_stats.Http.{
  ParsedUrl, blank_url, parse_url, read_rest, read_split, read_path, read_authority, bracketed,
  plain_host, after_bracket, with_port, path_of, without_userinfo, from, starts_path, ends_path,
}

lowered_nil : lowered [] ≡ []
unfolding lowered
lowered_nil = refl

-- The parts that are read before the path: both are in lower case.
abbrev IsLowered : ParsedUrl → Type 0
IsLowered u = (lowered u.scheme ≡ u.scheme) × (lowered u.host ≡ u.host)

with_port-IsLowered :
    (s : Text) (u : ParsedUrl)
    → IsLowered u
    → IsLowered (with_port s u).0
      × ((with_port s u).0.scheme ≡ u.scheme)
      × ((with_port s u).0.valid ≡ u.valid)
with_port-IsLowered s u h = ground arith

after_bracket-IsLowered :
    (s : Text) (u : ParsedUrl)
    → IsLowered u
    → IsLowered (after_bracket s u).0
      × ((after_bracket s u).0.scheme ≡ u.scheme)
      × ((after_bracket s u).0.valid ≡ u.valid)
after_bracket-IsLowered [] u h = (h, refl, refl)
after_bracket-IsLowered (c ∷ s) u h = elim (Bool-cases (c == b':')) [
  | inl e ↦ rw e (with_port-IsLowered s u h)
  | inr e ↦ rw e (h, refl, refl)
]

bracketed-IsLowered :
    (a : Text) (u : ParsedUrl)
    → IsLowered u
    → IsLowered (bracketed a u).0
      × ((bracketed a u).0.scheme ≡ u.scheme)
      × ((bracketed a u).0.valid ≡ u.valid)
bracketed-IsLowered a u h = elim (Option-cases (split_where (is_char b']') a)) [
  | inl e ↦ rw (bracketed, e) (h, refl, refl)
  | inr ((x, y), e) ↦
      rw (bracketed, e)
        (after_bracket-IsLowered (drop 1 y) (record u { host = lowered (x ++ b']' ∷ []) })
          (h.0, lowered_idem (x ++ b']' ∷ [])))
]

plain_host-IsLowered :
    (a : Text) (u : ParsedUrl)
    → IsLowered u
    → IsLowered (plain_host a u).0
      × ((plain_host a u).0.scheme ≡ u.scheme)
      × ((plain_host a u).0.valid ≡ u.valid)
plain_host-IsLowered a u h = elim (Option-cases (split_where (is_char b':') a)) [
  | inl e ↦ rw (plain_host, e) ((h.0, lowered_idem a), refl, refl)
  | inr ((x, y), e) ↦
      rw (plain_host, e)
        (with_port-IsLowered (drop 1 y) (record u { host = lowered x }) (h.0, lowered_idem x))
]

read_authority-IsLowered :
    (a : Text) (u : ParsedUrl)
    → IsLowered u
    → IsLowered (read_authority a u).0
      × ((read_authority a u).0.scheme ≡ u.scheme)
      × ((read_authority a u).0.valid ≡ u.valid)
read_authority-IsLowered [] u h = (h, refl, refl)
read_authority-IsLowered (c ∷ s) u h = elim (Bool-cases (c == b'[')) [
  | inl e ↦ rw e (bracketed-IsLowered (c ∷ s) u h)
  | inr e ↦ rw e (plain_host-IsLowered (c ∷ s) u h)
]

path_of-starts : (s : Text) → starts_with (path_of s) (codes "/") ≡ true
path_of-starts s = elim (Bool-cases (starts_with s (codes "/"))) [
  | inl e ↦ rw e e
  | inr e ↦ rw e refl
]

-- What a valid address has: a scheme and a host, both in lower case, and an absolute path.
abbrev pub IsAddress : ParsedUrl → Type 0
IsAddress u =
    (lowered u.scheme ≡ u.scheme)
    × (lowered u.host ≡ u.host)
    × (is_empty u.scheme ≡ false)
    × (is_empty u.host ≡ false)
    × (starts_with u.path (codes "/") ≡ true)

read_path-IsAddress :
    (s : Text) (r : ParsedUrl × Bool)
    → IsLowered r.0
    → is_empty r.0.scheme ≡ false
    → (r.0.valid ≡ false)
    → (read_path s r).valid ≡ true
    → IsAddress (read_path s r)
read_path-IsAddress s (r, goes_on) h e n v = elim (Bool-cases (not goes_on || is_empty r.host)) [
  | inl b ↦ (let bad : r.valid ≡ true = rw b at v in ground (arith, bad, n))
  | inr b ↦ rw b (h.0, h.1, e, ground (arith, b), path_of-starts (up_to ends_path s))
]

is_empty-lowered : (s : Text) → is_empty (lowered s) ≡ is_empty s
unfolding lowered
is_empty-lowered [] = refl
is_empty-lowered (c ∷ s) = refl

read_rest-IsAddress :
    (a b : Text) → is_empty a ≡ false → (read_rest a b).valid ≡ true → IsAddress (read_rest a b)
read_rest-IsAddress a b n v =
    let start : ParsedUrl = record blank_url { scheme = lowered a } in
    let authority = without_userinfo (up_to starts_path b) in
    let kept = read_authority-IsLowered authority start (lowered_idem a, lowered_nil) in
    read_path-IsAddress (from starts_path b) (read_authority authority start) kept.0
      (ap is_empty kept.1 ∙ is_empty-lowered a ∙ n) kept.2 v

read_split-IsAddress :
    (o : Option (Text × Text)) → (read_split o).valid ≡ true → IsAddress (read_split o)
read_split-IsAddress none v = ground (arith, v)
read_split-IsAddress (some (a, b)) v = elim (Bool-cases (is_empty a)) [
  | inl n ↦ (let bad : false ≡ true = rw n at v in ground (arith, bad))
  | inr n ↦ rw n (read_rest-IsAddress a (drop 3 b) n (rw n at v))
]

-- A valid address that `ParseUrl` reads has a scheme and a host, both in lower case, and a path from
-- the root.
pub parse_url-IsAddress : (raw : Text) → (parse_url raw).valid ≡ true → IsAddress (parse_url raw)
unfolding parse_url
parse_url-IsAddress raw v = read_split-IsAddress (split_at_text (codes "://") (trim raw)) v

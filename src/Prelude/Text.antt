-- ===== src/Prelude/Text.antt =====
-- Text as a list of bytes, for the code that walks it; `String` is for text that is only compared.
-- The character classes are those of the C locale.
use Prim.Native.Char.{code}
use omni_stats.Prelude.{
  ℕ, ◌+◌, String, ◌≡◌, refl, ◌↔◌, Bool, true, false, ◌&&◌, ◌||◌, List, [], ◌∷◌, Option, none, some,
  arith, leb, ◌==◌, map, not, all_of, any_of, if◌then◌else◌,
}

abbrev pub Text : Type 0
Text = List ℕ

-- The bytes of an ASCII literal.
abbrev pub codes : String → Text
codes String.[] = []
codes (String.◌∷◌ c s) = code c ∷ codes s

abbrev pub text_eq : Text → Text → Bool
text_eq [] [] = true
text_eq [] (d ∷ t) = false
text_eq (c ∷ s) [] = false
text_eq (c ∷ s) (d ∷ t) = c == d && text_eq s t

abbrev pub is_digit : ℕ → Bool
is_digit c = leb b'0' c && leb c b'9'

abbrev pub is_upper : ℕ → Bool
is_upper c = leb b'A' c && leb c b'Z'

abbrev pub is_alpha : ℕ → Bool
is_alpha c = is_upper c || (leb b'a' c && leb c b'z')

abbrev pub is_alnum : ℕ → Bool
is_alnum c = is_alpha c || is_digit c

abbrev pub is_xdigit : ℕ → Bool
is_xdigit c = is_digit c || (leb b'A' c && leb c b'F') || (leb b'a' c && leb c b'f')

abbrev pub is_space : ℕ → Bool
is_space c = (leb 9 c && leb c 13) || c == 32

unfoldable pub to_lower : ℕ → ℕ
to_lower c = if is_upper c then c + 32 else c

-- Whether `s` starts with `t`.
abbrev pub starts_with : Text → Text → Bool
starts_with s [] = true
starts_with [] (d ∷ t) = false
starts_with (c ∷ s) (d ∷ t) = c == d && starts_with s t

-- `find(t)` as the pair of what stands before and from the first occurrence of `t` on.
abbrev pub split_at_text : Text → Text → Option (Text × Text)
split_at_text t [] = if starts_with [] t then some ([], []) else none
split_at_text t (c ∷ s) =
    if starts_with (c ∷ s) t
    then some ([], c ∷ s)
    else elim (split_at_text t s) [ none ↦ none | some (a, b) ↦ some (c ∷ a, b) ]

abbrev pub contains_text : Text → Text → Bool
contains_text t s = elim (split_at_text t s) [ none ↦ false | some r ↦ true ]

-- `find(c)` and `find_first_of` the same way: what stands before, and from the character on.
abbrev pub split_where : (ℕ → Bool) → Text → Option (Text × Text)
split_where p [] = none
split_where p (c ∷ s) =
    if p c
    then some ([], c ∷ s)
    else elim (split_where p s) [ none ↦ none | some (a, b) ↦ some (c ∷ a, b) ]

-- `while (!text.empty() && std::isspace(text.front())) text.remove_prefix(1);`
abbrev pub trim_front : Text → Text
trim_front [] = []
trim_front (c ∷ s) = let rest = trim_front s in if is_space c then rest else c ∷ s

-- `while (!text.empty() && std::isspace(text.back())) text.remove_suffix(1);`
abbrev pub trim_back : Text → Text
trim_back [] = []
trim_back (c ∷ s) = drop_blank c (trim_back s)
  where
    drop_blank : ℕ → Text → Text
    drop_blank c [] = if is_space c then [] else c ∷ []
    drop_blank c (d ∷ t) = c ∷ d ∷ t

unfoldable pub lowered : Text → Text
lowered = map to_lower

abbrev pub trim : Text → Text
trim s = trim_back (trim_front s)

-- What stands before the first character that passes the test, or all of the text.
abbrev pub up_to : (ℕ → Bool) → Text → Text
up_to p s = elim (split_where p s) [ none ↦ s | some (a, b) ↦ a ]

abbrev pub is_char : ℕ → ℕ → Bool
is_char d c = c == d

pub text_eq_refl : (s : Text) → text_eq s s ≡ true
text_eq_refl [] = refl
text_eq_refl (c ∷ s) = ground (arith, text_eq_refl s)

pub eq_of_text_eq : (s t : Text) → text_eq s t ≡ true → s ≡ t
eq_of_text_eq [] [] h = refl
eq_of_text_eq [] (d ∷ t) h = cc
eq_of_text_eq (c ∷ s) [] h = cc
eq_of_text_eq (c ∷ s) (d ∷ t) h = ground (arith, eq_of_text_eq s t)

pub text_eq_iff : (s t : Text) → (text_eq s t ≡ true) ↔ (s ≡ t)
text_eq_iff s t = (eq_of_text_eq s t, λ e. rw e (text_eq_refl t))

to_lower_idem : (c : ℕ) → to_lower (to_lower c) ≡ to_lower c
unfolding to_lower
to_lower_idem c = ground arith

pub lowered_idem : (s : Text) → lowered (lowered s) ≡ lowered s
unfolding lowered
lowered_idem [] = refl
lowered_idem (c ∷ s) = rw (to_lower_idem c, lowered_idem s)

-- A character that is no blank.
abbrev pub is_printed : ℕ → Bool
is_printed c = not (is_space c)

trim_back_printed : (s : Text) → all_of is_printed s ≡ true → trim_back s ≡ s
trim_back_printed [] h = refl
trim_back_printed (c ∷ []) h = ground (arith, h)
trim_back_printed (c ∷ d ∷ s) h = rw (trim_back_printed (d ∷ s) (ground (arith, h))) refl

pub trim_printed : (s : Text) → all_of is_printed s ≡ true → trim s ≡ s
trim_printed [] h = refl
trim_printed (c ∷ s) h =
    let printed : is_space c ≡ false = ground (arith, h) in rw printed (trim_back_printed (c ∷ s) h)

-- A text without the character is not cut.
pub up_to-absent : (d : ℕ) (s : Text) → any_of (is_char d) s ≡ false → up_to (is_char d) s ≡ s
up_to-absent d s h = rw (up_to, split_where-absent (is_char d) s h) refl
  where
    split_where-absent : (p : ℕ → Bool) (s : Text) → any_of p s ≡ false → split_where p s ≡ none
    split_where-absent p [] h = refl
    split_where-absent p (c ∷ s) h =
        let here : p c ≡ false = ground (arith, h) in
        rw (here, split_where-absent p s (ground (arith, h))) refl

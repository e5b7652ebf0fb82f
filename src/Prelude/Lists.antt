-- ===== src/Prelude/Lists.antt =====
-- Lists measured by native numbers, and the standard algorithms that take a Boolean test.
use Prim.Native.Nat.{ℕ, zero, suc, ◌+◌, ◌≤◌, min}
use mathlib.Core.Path.{◌≡◌, refl, subst, ap}
use mathlib.Core.Logic.{inl, inr}
use mathlib.Core.Bool.{Bool, true, false, ◌&&◌, ◌||◌}
use mathlib.Core.List.{List, [], ◌∷◌, ◌++◌, map}
use mathlib.Core.Option.{Option, none, some}
use native.Mathlib.Omega.{arith}
use omni_stats.Prelude.Tests.{if◌then◌else◌, Bool-cases}

module _ {ℓ} {A : Type ℓ} where
  abbrev pub length : List A → ℕ
  length [] = 0
  length (x ∷ xs) = suc (length xs)

  abbrev pub take : ℕ → List A → List A
  take zero xs = []
  take (suc n) [] = []
  take (suc n) (x ∷ xs) = x ∷ take n xs

  abbrev pub drop : ℕ → List A → List A
  drop zero xs = xs
  drop (suc n) [] = []
  drop (suc n) (x ∷ xs) = drop n xs

  -- `empty()`.
  abbrev pub is_empty : List A → Bool
  is_empty [] = true
  is_empty (x ∷ xs) = false

  -- `std::any_of` and `std::all_of`.
  abbrev pub any_of : (A → Bool) → List A → Bool
  any_of p [] = false
  any_of p (x ∷ xs) = p x || any_of p xs

  abbrev pub all_of : (A → Bool) → List A → Bool
  all_of p [] = true
  all_of p (x ∷ xs) = p x && all_of p xs

  -- `std::find_if`, by value.
  abbrev pub find_if : (A → Bool) → List A → Option A
  find_if p [] = none
  find_if p (x ∷ xs) = if p x then some x else find_if p xs

  -- `erase` of the iterator that `std::find_if` returns.
  abbrev pub erase_first : (A → Bool) → List A → List A
  erase_first p [] = []
  erase_first p (x ∷ xs) = if p x then xs else x ∷ erase_first p xs

  -- `std::erase_if`.
  abbrev pub erase_if : (A → Bool) → List A → List A
  erase_if p [] = []
  erase_if p (x ∷ xs) = let rest = erase_if p xs in if p x then rest else x ∷ rest

  -- The elements that satisfy the test.
  abbrev pub keep_if : (A → Bool) → List A → List A
  keep_if p [] = []
  keep_if p (x ∷ xs) = let rest = keep_if p xs in if p x then x ∷ rest else rest

  -- `std::count_if`.
  abbrev pub count_if : (A → Bool) → List A → ℕ
  count_if p [] = 0
  count_if p (x ∷ xs) = let rest = count_if p xs in if p x then suc rest else rest

  -- A predicate on every element.
  abbrev pub All {κ} : (A → Type κ) → List A → Type κ
  All P [] = Unit
  All P (x ∷ xs) = P x × All P xs

module _ {ℓ} {A : Type ℓ} where
  pub length-append : (xs ys : List A) → length (xs ++ ys) ≡ length xs + length ys
  length-append [] ys = omega arith
  length-append (x ∷ xs) ys = omega (arith, length-append xs ys)

  pub count_if-append :
      (p : A → Bool) (xs ys : List A) → count_if p (xs ++ ys) ≡ count_if p xs + count_if p ys
  count_if-append p [] ys = omega arith
  count_if-append p (x ∷ xs) ys = ground (arith, count_if-append p xs ys)

  pub count_if-le-length : (p : A → Bool) (xs : List A) → count_if p xs ≤ length xs
  count_if-le-length p [] = omega arith
  count_if-le-length p (x ∷ xs) = ground (arith, count_if-le-length p xs)

  -- What `std::find_if` returns satisfies the test.
  pub find_if-eq-some : (p : A → Bool) (xs : List A) (x : A) → find_if p xs ≡ some x → p x ≡ true
  find_if-eq-some p [] x h = cc
  find_if-eq-some p (y ∷ xs) x h = ground (arith, find_if-eq-some p xs x)

  pub any_of-find_if : (p : A → Bool) (xs : List A) → any_of p xs ≡ false → find_if p xs ≡ none
  any_of-find_if p [] h = refl
  any_of-find_if p (y ∷ xs) h = ground (arith, any_of-find_if p xs)

module _ {ℓ κ} {A : Type ℓ} (P : A → Type κ) where
  pub All-append : (xs ys : List A) → All P xs → All P ys → All P (xs ++ ys)
  All-append [] ys h k = k
  All-append (x ∷ xs) ys h k = (h.0, All-append xs ys h.1 k)

  pub All-erase_first : (p : A → Bool) (xs : List A) → All P xs → All P (erase_first p xs)
  All-erase_first p [] h = h
  All-erase_first p (x ∷ xs) h = elim (Bool-cases (p x)) [
    | inl e ↦ rw e h.1
    | inr e ↦ rw e (h.0, All-erase_first p xs h.1)
  ]

  pub All-find_if : (p : A → Bool) (xs : List A) (x : A) → All P xs → find_if p xs ≡ some x → P x
  All-find_if p [] x h e = cc
  All-find_if p (y ∷ xs) x h e = elim (Bool-cases (p y)) [
    | inl t ↦ subst P (cc) h.0
    | inr t ↦ All-find_if p xs x h.1 (cc)
  ]

module _ {ℓ κ μ} {A : Type ℓ} (P : A → Type κ) (Q : A → Type μ) where
  pub All-imp : ((x : A) → P x → Q x) → (xs : List A) → All P xs → All Q xs
  All-imp f [] h = tt
  All-imp f (x ∷ xs) h = (f x h.0, All-imp f xs h.1)

module _ {ℓ} {A : Type ℓ} where
  pub any_of-append :
      (p : A → Bool) (xs ys : List A) → any_of p (xs ++ ys) ≡ (any_of p xs || any_of p ys)
  any_of-append p [] ys = refl
  any_of-append p (x ∷ xs) ys = ground (arith, any_of-append p xs ys)

  -- Where `std::find_if` stops, and what is left when that element is erased.
  abbrev pub FirstOf : (A → Bool) → List A → Option A → Type ℓ
  FirstOf p l none = (any_of p l ≡ false) × (erase_first p l ≡ l)
  FirstOf p l (some r) =
      (xs : List A) × (ys : List A) × (l ≡ xs ++ r ∷ ys)
      × (any_of p xs ≡ false)
      × (p r ≡ true)
      × (erase_first p l ≡ xs ++ ys)

  found_later :
      (p : A → Bool) (x : A) (l : List A) (o : Option A)
      → p x ≡ false
      → FirstOf p l o
      → FirstOf p (x ∷ l) o
  found_later p x l none e h = (ground (arith, h.0), rw e (ap (◌∷◌ x) h.1))
  found_later p x l (some r) e (xs, ys, s, n, t, u) =
      (x ∷ xs, ys, ap (◌∷◌ x) s, rw e n, t, rw e (ap (◌∷◌ x) u))

  pub find_if-FirstOf : (p : A → Bool) (l : List A) → FirstOf p l (find_if p l)
  find_if-FirstOf p [] = (refl, refl)
  find_if-FirstOf p (x ∷ l) = elim (Bool-cases (p x)) [
    | inl e ↦ rw e ([], l, refl, refl, e, rw e)
    | inr e ↦ rw e (found_later p x l (find_if p l) e (find_if-FirstOf p l))
  ]

module _ {ℓ} {A : Type ℓ} where
  pub keep_if-congr :
      (p q : A → Bool) (l : List A) → ((x : A) → p x ≡ q x) → keep_if p l ≡ keep_if q l
  keep_if-congr p q [] h = refl
  keep_if-congr p q (x ∷ l) h = rw (h x, keep_if-congr p q l h)

  pub length-keep_if : (p : A → Bool) (l : List A) → length (keep_if p l) ≡ count_if p l
  length-keep_if p [] = refl
  length-keep_if p (x ∷ l) = ground (arith, length-keep_if p l)

  pub length-take : (n : ℕ) (xs : List A) → length (take n xs) ≡ min n (length xs)
  length-take zero xs = omega arith
  length-take (suc n) [] = omega arith
  length-take (suc n) (x ∷ xs) = omega (arith, length-take n xs)

  pub length-map {κ} : {B : Type κ} (f : A → B) (xs : List A) → length (map f xs) ≡ length xs
  length-map f [] = refl
  length-map f (x ∷ xs) = ap suc (length-map f xs)

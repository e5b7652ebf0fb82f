-- ===== src/Prelude/Maps.antt =====
-- Sets and maps with text keys, as lists: the order of an unordered container is not modelled.
use omni_stats.Prelude.{
  String, ◌≡◌, refl, Bool, true, false, ◌||◌, List, [], ◌∷◌, Option, none, some, arith, str_eq,
  eq_iff, if◌then◌else◌, Bool-cases, inl, inr,
}

-- `count(k) > 0`.
abbrev pub member : String → List String → Bool
member k [] = false
member k (j ∷ s) = str_eq j k || member k s

-- `insert(k)`, of a key that may be present.
abbrev pub insert_key : String → List String → List String
insert_key k s = if member k s then s else k ∷ s

-- `erase(k)`.
abbrev pub erase_key : String → List String → List String
erase_key k [] = []
erase_key k (j ∷ s) = let rest = erase_key k s in if str_eq j k then rest else j ∷ rest

module _ {ℓ} {V : Type ℓ} where
  -- `find(k)`.
  abbrev pub lookup : String → List (String × V) → Option V
  lookup k [] = none
  lookup k ((j, v) ∷ m) = if str_eq j k then some v else lookup k m

  -- `m[k] = v`.
  abbrev pub insert : String → V → List (String × V) → List (String × V)
  insert k v [] = (k, v) ∷ []
  insert k v ((j, w) ∷ m) = if str_eq j k then (k, v) ∷ m else (j, w) ∷ insert k v m

  -- `erase(k)`.
  abbrev pub erase : String → List (String × V) → List (String × V)
  erase k [] = []
  erase k ((j, v) ∷ m) = let rest = erase k m in if str_eq j k then rest else (j, v) ∷ rest

member_present :
    (k j : String) (s : List String) → member k s ≡ true → member j s ≡ (str_eq k j || member j s)
member_present k j [] h = cc
member_present k j (i ∷ s) h =
    ground (arith, eq_iff i k, eq_iff k j, eq_iff i j, member_present k j s)

pub member-insert_key :
    (k j : String) (s : List String) → member j (insert_key k s) ≡ (str_eq k j || member j s)
member-insert_key k j s = elim (Bool-cases (member k s)) [
  | inl e ↦ rw e (member_present k j s e)
  | inr e ↦ rw e
]

pub member-erase_key :
    (k j : String) (s : List String)
    → member j (erase_key k s) ≡ (if str_eq k j then false else member j s)
member-erase_key k j [] = ground arith
member-erase_key k j (i ∷ s) =
    ground (arith, eq_iff i k, eq_iff k j, eq_iff i j, member-erase_key k j s)

module _ {ℓ} {V : Type ℓ} where
  pub lookup-insert :
      (k j : String) (v : V) (m : List (String × V))
      → lookup j (insert k v m) ≡ (if str_eq k j then some v else lookup j m)
  lookup-insert k j v [] = refl
  lookup-insert k j v ((i, w) ∷ m) =
      ground (arith, eq_iff k j, eq_iff i k, eq_iff i j, lookup-insert k j v m)

  pub lookup-erase :
      (k j : String) (m : List (String × V))
      → lookup j (erase k m) ≡ (if str_eq k j then none else lookup j m)
  lookup-erase k j [] = ground arith
  lookup-erase k j ((i, w) ∷ m) =
      ground (arith, eq_iff k j, eq_iff i k, eq_iff i j, lookup-erase k j m)

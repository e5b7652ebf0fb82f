-- ===== src/Mmr/Path/Preserved.antt =====
-- What `MmrPathPreservesResults` tests, and that every path that is shown passes it.
use omni_stats.Prelude.{
  ℕ, ◌≡◌, refl, ◌∙◌, subst, inl, inr, ◌⊎◌, ◌↔◌, Bool, true, false, not, ◌||◌, List, [], ◌∷◌, arith,
  ◌==◌, if◌then◌else◌, Bool-cases, is_empty, length, count_if,
}
use omni_stats.Prelude.Int.{ℤ, pos, ◌<ℤ◌, ◌-ℤ◌}
use omni_stats.Mmr.Path.{
  Doubles, is_positive_int, keeps_results, mmr_path_preserves_results, set_back, back,
  preserved_or_empty, next_rating, walk, steps, is_impossible, checked_walk,
  build_directional_mmr_path, corrected, reconcile_estimated_path,
}

-- From `a` over the ratings of the path to `z`: each is positive, above the one before after a win and
-- below it after a loss.
pub data Climbs : ℤ → List ℤ → List Bool → ℤ → Type 0 where
  arrived : (a : ℤ) → Climbs a [] [] a
  rises :
      (a b z : ℤ) (path : List ℤ) (results : List Bool)
      → pos 0 <ℤ b
      → a <ℤ b
      → Climbs b path results z
      → Climbs a (b ∷ path) (true ∷ results) z
  falls :
      (a b z : ℤ) (path : List ℤ) (results : List Bool)
      → pos 0 <ℤ b
      → b <ℤ a
      → Climbs b path results z
      → Climbs a (b ∷ path) (false ∷ results) z

-- Where a path from `a` ends.
abbrev pub end_of : ℤ → List ℤ → ℤ
end_of a [] = a
end_of a (b ∷ path) = end_of b path

keeps-Climbs :
    (a : ℤ) (path : List ℤ) (results : List Bool)
    → (length path == length results) ≡ true
    → keeps_results a path results ≡ true
    → Climbs a path results (end_of a path)
unfolding keeps_results
keeps-Climbs a [] [] h k = arrived a
keeps-Climbs a [] (r ∷ rs) h k = ground (arith, h)
keeps-Climbs a (b ∷ path) [] h k = ground (arith, h)
keeps-Climbs a (b ∷ path) (true ∷ rs) h k =
    rises a b (end_of b path) path rs (ground arith) (ground arith)
      (keeps-Climbs b path rs (ground arith) (ground arith))
keeps-Climbs a (b ∷ path) (false ∷ rs) h k =
    falls a b (end_of b path) path rs (ground arith) (ground arith)
      (keeps-Climbs b path rs (ground arith) (ground arith))

Climbs-keeps :
    (a z : ℤ) (path : List ℤ) (results : List Bool)
    → Climbs a path results z
    → ((length path == length results) ≡ true)
      × (keeps_results a path results ≡ true)
      × (end_of a path ≡ z)
unfolding keeps_results
Climbs-keeps _ _ _ _ (arrived a) = (refl, refl, refl)
Climbs-keeps _ _ _ _ (rises a b z path rs p l c) =
    let ih = Climbs-keeps b z path rs c in (ground arith, ground arith, ih.2)
Climbs-keeps _ _ _ _ (falls a b z path rs p l c) =
    let ih = Climbs-keeps b z path rs c in (ground arith, ground arith, ih.2)

-- `MmrPathPreservesResults` accepts exactly the paths that climb from a positive rating.
pub mmr_path_preserves_results_lem :
    (initial_mmr : ℤ) (path : List ℤ) (results : List Bool)
    → (mmr_path_preserves_results initial_mmr path results ≡ true)
      ↔ ((pos 0 <ℤ initial_mmr) × Climbs initial_mmr path results (end_of initial_mmr path))
unfolding mmr_path_preserves_results
mmr_path_preserves_results_lem a path rs = (
  λ h. (ground arith, keeps-Climbs a path rs (ground arith) (ground arith)),
  λ (p, c). (let k = Climbs-keeps a (end_of a path) path rs c in ground (arith, p, k)),
)

end_of-set_back : (a z : ℤ) (l : List ℤ) → is_empty l ≡ false → end_of a (set_back z l) ≡ z
unfolding set_back
end_of-set_back a z [] h = ground (arith, h)
end_of-set_back a z (b ∷ []) h = refl
end_of-set_back a z (b ∷ c ∷ l) h = end_of-set_back b z (c ∷ l) refl

is_empty-corrected :
    (F : Doubles) (error : ℤ) (n i : ℕ) (l : List ℤ)
    → is_empty (corrected F error n i l) ≡ is_empty l
unfolding corrected
is_empty-corrected F error n i [] = refl
is_empty-corrected F error n i (x ∷ l) = refl

-- Nothing, or a path from a positive rating that climbs to `z` by the results.
abbrev pub Shows : ℤ → ℤ → List Bool → List ℤ → Type 0
Shows a z results path = (path ≡ []) ⊎ ((pos 0 <ℤ a) × Climbs a path results z)

preserved-Shows :
    (a z : ℤ) (path : List ℤ) (results : List Bool)
    → end_of a path ≡ z
    → mmr_path_preserves_results a path results ≡ true
    → Shows a z results path
preserved-Shows a z path results e p =
    let c = (mmr_path_preserves_results_lem a path results).0 p in
    inr (c.0, subst (Climbs a path results) e c.1)

preserved_or_empty-Shows :
    (a z : ℤ) (path : List ℤ) (results : List Bool)
    → end_of a path ≡ z
    → Shows a z results (preserved_or_empty a path results)
preserved_or_empty-Shows a z path results e =
    elim (Bool-cases (mmr_path_preserves_results a path results)) [
      | inl p ↦ rw p (preserved-Shows a z path results e p)
      | inr p ↦ rw p (inl refl)
    ]

end_of-step :
    (stops : Bool) (a z x : ℤ) (rest : Bool × List ℤ)
    → (rest.0 ≡ true → end_of x rest.1 ≡ z)
    → let walked : Bool × List ℤ = if stops then (false, []) else (rest.0, x ∷ rest.1) in
      walked.0 ≡ true → end_of a walked.1 ≡ z
end_of-step true a z x rest e w = ground (arith, w)
end_of-step false a z x rest e w = e w

-- A walk over at least one result that does not break off ends at the final rating.
end_of-walk :
    (F : Doubles) (a z : ℤ) (step : F.Double × F.Double) (current : F.Double) (results : List Bool)
    → is_empty results ≡ false
    → (walk F z step current results).0 ≡ true
    → end_of a (walk F z step current results).1 ≡ z
unfolding walk
end_of-walk F a z step current [] h w = ground (arith, h)
end_of-walk F a z step current (won ∷ []) h w =
    end_of-step (F.is_at_most_zero (next_rating F step current won)) a z z (true, []) (λ t. refl) w
end_of-walk F a z step current (won ∷ r ∷ rs) h w =
    let next = next_rating F step current won in
    end_of-step (F.is_at_most_zero next) a z (F.round next) (walk F z step next (r ∷ rs))
      (end_of-walk F (F.round next) z step next (r ∷ rs) refl) w

checked_walk-Shows :
    (a z : ℤ) (results : List Bool) (w : Bool × List ℤ)
    → (w.0 ≡ true → end_of a w.1 ≡ z)
    → Shows a z results (checked_walk a results w)
checked_walk-Shows a z results (false, path) e = inl refl
checked_walk-Shows a z results (true, path) e = preserved_or_empty-Shows a z path results (e refl)

build_directional-Shows :
    (F : Doubles) (a z : ℤ) (results : List Bool)
    → Shows a z results (build_directional_mmr_path F a z results)
unfolding build_directional_mmr_path
build_directional-Shows F a z results =
    let wins = count_if (λ won. won) results in
    let losses = count_if not results in
    let step = steps F (z -ℤ a) wins losses in
    let w = walk F z step (F.of_int a) results in
    elim (Bool-cases (is_empty results || not (is_positive_int a) || not (is_positive_int z))) [
      | inl b ↦ rw b (inl refl)
      | inr b ↦ rw b (elim (Bool-cases (is_impossible (z -ℤ a) wins losses)) [
        | inl i ↦ rw i (inl refl)
        | inr i ↦ rw i (
            checked_walk-Shows a z results w
              (end_of-walk F a z step (F.of_int a) results (ground (arith, b))))
      ])
    ]

-- Whatever `double` computes, the path that `ReconcileEstimatedPath` gives is empty, or leads from a
-- positive initial rating by exactly the given results to the final rating: every rating on it is
-- positive, above the one before after a win and below it after a loss.
pub reconcile_estimated_path-Shows :
    (F : Doubles) (initial_mmr final_mmr : ℤ) (estimated_path : List ℤ) (results : List Bool)
    → Shows initial_mmr final_mmr results
        (reconcile_estimated_path F initial_mmr final_mmr estimated_path results)
unfolding reconcile_estimated_path
reconcile_estimated_path-Shows F a z l results =
    let shifted = corrected F (z -ℤ back l) (length l) 0 l in
    let refuses =
      is_empty l
      || not (length l == length results)
      || not (is_positive_int a)
      || not (is_positive_int z) in
    elim (Bool-cases refuses) [
      | inl b ↦ rw b (inl refl)
      | inr b ↦
          (let nonempty : is_empty l ≡ false = ground (arith, b) in
            rw b (elim (Bool-cases (mmr_path_preserves_results a (set_back z l) results)) [
              | inl p ↦
                  rw p
                    (preserved-Shows a z (set_back z l) results (end_of-set_back a z l nonempty) p)
              | inr p ↦
                  rw p
                    (elim (Bool-cases (mmr_path_preserves_results a (set_back z shifted) results)) [
                      | inl q ↦ rw q (
                          preserved-Shows a z (set_back z shifted) results
                            (end_of-set_back a z shifted
                              (is_empty-corrected F (z -ℤ back l) (length l) 0 l ∙ nonempty))
                            q)
                      | inr q ↦ rw q (build_directional-Shows F a z results)
                    ])
            ]))
    ]

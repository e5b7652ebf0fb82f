-- ===== src/Mmr/Path/Examples.antt =====
-- The lemmas on paths of ratings at concrete inputs.
use omni_stats.Prelude.{◌+◌, ◌*◌, ◌/◌, ◌≡◌, refl, ◌↔◌, Bool, true, false, List, [], ◌∷◌}
use omni_stats.Prelude.Int.{ℤ, pos, ◌<ℤ◌, ◌+ℤ◌, ◌-ℤ◌, leb_ℤ, pos_part, neg_part}
use omni_stats.Mmr.Path.{
  Doubles, mmr_path_preserves_results, reconcile_estimated_path, build_directional_mmr_path, walk,
  corrected, keeps_results, set_back,
}
use omni_stats.Mmr.Path.Preserved.{
  Climbs, end_of, Shows, mmr_path_preserves_results_lem, reconcile_estimated_path-Shows,
}

-- Whole numbers in place of `double`: the quotient of the absolute values is cut off.
abbrev whole : Doubles
whole = record {
  Double = ℤ;
  of_int = λ n. n;
  of_size = pos;
  add = λ a b. a +ℤ b;
  sub = λ a b. a -ℤ b;
  mul = λ a b.
      pos (pos_part a * pos_part b + neg_part a * neg_part b)
      -ℤ pos (pos_part a * neg_part b + neg_part a * pos_part b);
  div = λ a b. pos (pos_part a / pos_part b) -ℤ pos (neg_part a / pos_part b);
  is_at_most_zero = λ a. leb_ℤ a (pos 0);
  round = λ n. n;
}

abbrev win_and_loss : List Bool
win_and_loss = true ∷ false ∷ []

abbrev estimated : List ℤ
estimated = pos 990 ∷ pos 995 ∷ []

-- Neither the estimate nor its correction fits, and the path is built from the results.
reconciled :
    reconcile_estimated_path whole (pos 1000) (pos 1010) estimated win_and_loss
    ≡ pos 1019 ∷ pos 1010 ∷ []
unfolding reconcile_estimated_path build_directional_mmr_path mmr_path_preserves_results walk
    corrected keeps_results set_back ◌+ℤ◌ ◌-ℤ◌
reconciled = refl

reconcile_estimated_path-Shows_example :
    Shows
      (pos 1000)
      (pos 1010)
      win_and_loss
      (reconcile_estimated_path whole (pos 1000) (pos 1010) estimated win_and_loss)
reconcile_estimated_path-Shows_example =
    reconcile_estimated_path-Shows whole (pos 1000) (pos 1010) estimated win_and_loss

mmr_path_preserves_results_example :
    (mmr_path_preserves_results (pos 1000) estimated win_and_loss ≡ true)
    ↔ ((pos 0 <ℤ pos 1000) × Climbs (pos 1000) estimated win_and_loss (end_of (pos 1000) estimated))
mmr_path_preserves_results_example =
    mmr_path_preserves_results_lem (pos 1000) estimated win_and_loss

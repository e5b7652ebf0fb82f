-- ===== src/Mmr/Path.antt =====
-- src/network/mmr/MmrServiceDetail.cpp: the ratings between two known ones, one for each match. A
-- path that is shown has to rise with every win and fall with every loss.
--
-- The steps are computed in `double`: its arithmetic is a parameter, of which nothing is assumed.
pub mod Preserved
mod Examples
use omni_stats.Prelude.{
  ℕ, zero, suc, ◌+◌, Bool, true, false, ◌&&◌, ◌||◌, not, List, [], ◌∷◌, ltb, ◌==◌, if◌then◌else◌,
  is_empty, length, count_if,
}
use omni_stats.Prelude.Int.{ℤ, pos, ◌+ℤ◌, ◌-ℤ◌, ltb_ℤ, leb_ℤ, eqb_ℤ}

-- `double`: the conversions from `int` and `size_t`, the operations, the test `x <= 0` and
-- `static_cast<int>(std::round(x))`.
pub record Doubles : Type 1 where
  pub Double : Type 0
  pub of_int : ℤ → Double
  pub of_size : ℕ → Double
  pub add : Double → Double → Double
  pub sub : Double → Double → Double
  pub mul : Double → Double → Double
  pub div : Double → Double → Double
  pub is_at_most_zero : Double → Bool
  pub round : Double → ℤ

abbrev pub is_positive_int : ℤ → Bool
is_positive_int n = ltb_ℤ (pos 0) n

-- The loop of `MmrPathPreservesResults`; the lists have one length.
unfoldable pub keeps_results : ℤ → List ℤ → List Bool → Bool
keeps_results previous [] results = true
keeps_results previous (current ∷ path) [] = true
keeps_results previous (current ∷ path) (won ∷ results) =
    let rest = keeps_results current path results in
    if not (is_positive_int current)
    then false
    else if (if won then leb_ℤ current previous else leb_ℤ previous current)
    then false
    else rest

unfoldable pub mmr_path_preserves_results : ℤ → List ℤ → List Bool → Bool
mmr_path_preserves_results initial_mmr path results =
    if not (is_positive_int initial_mmr) || not (length path == length results)
    then false
    else keeps_results initial_mmr path results

-- `path.back() = x`.
unfoldable pub set_back : ℤ → List ℤ → List ℤ
set_back x [] = []
set_back x (y ∷ []) = x ∷ []
set_back x (y ∷ z ∷ l) = y ∷ set_back x (z ∷ l)

-- `path.back()`, of a path that is not empty.
abbrev pub back : List ℤ → ℤ
back [] = pos 0
back (y ∷ []) = y
back (y ∷ z ∷ l) = back (z ∷ l)

abbrev pub preserved_or_empty : ℤ → List ℤ → List Bool → List ℤ
preserved_or_empty initial_mmr path results =
    if mmr_path_preserves_results initial_mmr path results then path else []

-- A change that the results rule out.
abbrev pub is_impossible : ℤ → ℕ → ℕ → Bool
is_impossible delta wins losses =
    (ltb_ℤ (pos 0) delta && wins == 0)
    || (ltb_ℤ delta (pos 0) && losses == 0)
    || (eqb_ℤ delta (pos 0) && (wins == 0 || losses == 0) && (ltb 0 wins || ltb 0 losses))

-- The test of a finished walk; a walk that broke off gives nothing.
abbrev pub checked_walk : ℤ → List Bool → Bool × List ℤ → List ℤ
checked_walk initial_mmr results (false, path) = []
checked_walk initial_mmr results (true, path) = preserved_or_empty initial_mmr path results

module _ (F : Doubles) where
  abbrev pub nine : F.Double
  nine = F.of_int (pos 9)

  -- `winStep` and `lossStep`.
  abbrev pub steps : ℤ → ℕ → ℕ → F.Double × F.Double
  steps delta wins losses =
      if ltb_ℤ (pos 0) delta
      then (F.div (F.add (F.of_int delta) (F.mul nine (F.of_size losses))) (F.of_size wins), nine)
      else if ltb_ℤ delta (pos 0)
      then (nine, F.div (F.sub (F.mul nine (F.of_size wins)) (F.of_int delta)) (F.of_size losses))
      else if ltb 0 wins && ltb 0 losses
      then (nine, F.div (F.mul nine (F.of_size wins)) (F.of_size losses))
      else (nine, nine)

  abbrev pub next_rating : F.Double × F.Double → F.Double → Bool → F.Double
  next_rating step current won = if won then F.add current step.0 else F.sub current step.1

  -- The loop over the results: `false` where a rating is not positive.
  unfoldable pub walk : ℤ → F.Double × F.Double → F.Double → List Bool → Bool × List ℤ
  walk final_mmr step current [] = (true, [])
  walk final_mmr step current (won ∷ results) =
      let next = next_rating step current won in
      let rest = walk final_mmr step next results in
      if F.is_at_most_zero next
      then (false, [])
      else (rest.0, (if is_empty results then final_mmr else F.round next) ∷ rest.1)

  unfoldable pub build_directional_mmr_path : ℤ → ℤ → List Bool → List ℤ
  build_directional_mmr_path initial_mmr final_mmr results =
      let wins = count_if (λ won. won) results in
      let losses = count_if not results in
      let delta = final_mmr -ℤ initial_mmr in
      if is_empty results || not (is_positive_int initial_mmr) || not (is_positive_int final_mmr)
      then []
      else if is_impossible delta wins losses
      then []
      else checked_walk initial_mmr results
          (walk final_mmr (steps delta wins losses) (F.of_int initial_mmr) results)

  -- The loop of the correction, from the index `i` on.
  unfoldable pub corrected : ℤ → ℕ → ℕ → List ℤ → List ℤ
  corrected error path_length i [] = []
  corrected error path_length i (x ∷ l) =
      (x
        +ℤ F.round
            (F.div (F.mul (F.of_int error) (F.of_int (pos (i + 1)))) (F.of_int (pos path_length))))
      ∷ corrected error path_length (suc i) l

  unfoldable pub reconcile_estimated_path : ℤ → ℤ → List ℤ → List Bool → List ℤ
  reconcile_estimated_path initial_mmr final_mmr estimated_path results =
      let path = set_back final_mmr estimated_path in
      let error = final_mmr -ℤ back estimated_path in
      let shifted = set_back final_mmr (corrected error (length estimated_path) 0 estimated_path) in
      if is_empty estimated_path
        || not (length estimated_path == length results)
        || not (is_positive_int initial_mmr)
        || not (is_positive_int final_mmr)
      then []
      else if mmr_path_preserves_results initial_mmr path results
      then path
      else if mmr_path_preserves_results initial_mmr shifted results
      then shifted
      else build_directional_mmr_path initial_mmr final_mmr results

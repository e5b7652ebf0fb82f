-- ===== src/Playlists/Modes.antt =====
-- Rating categories and their names.
use omni_stats.Prelude.{String, ◌≡◌, refl, ◌⊎◌, arith, eq_iff}
use omni_stats.Playlists.{MmrCategory, mmr_category_to_string, string_to_mmr_category}

-- `StringToMmrCategory` reads every name that `MmrCategoryToString` writes; and a text is the name of
-- the category it is read as, unless it is read as `Best`.
pub string_to_mmr_category_lem :
    (c : MmrCategory) (s : String)
    → (string_to_mmr_category (mmr_category_to_string c) ≡ c)
      × ((mmr_category_to_string (string_to_mmr_category s) ≡ s)
          ⊎ (string_to_mmr_category s ≡ MmrCategory.best))
unfolding mmr_category_to_string string_to_mmr_category
string_to_mmr_category_lem c s = (reads c, writes)
  where
    reads : (c : MmrCategory) → string_to_mmr_category (mmr_category_to_string c) ≡ c
    reads MmrCategory.best = refl
    reads MmrCategory.one_v_one = refl
    reads MmrCategory.two_v_two = refl
    reads MmrCategory.three_v_three = refl
    reads MmrCategory.casual = refl
    reads MmrCategory.tourny = refl
    reads MmrCategory.hoops = refl
    reads MmrCategory.rumble = refl
    reads MmrCategory.dropshot = refl
    reads MmrCategory.snow_day = refl
    reads MmrCategory.heatseeker = refl

    writes :
        (mmr_category_to_string (string_to_mmr_category s) ≡ s)
        ⊎ (string_to_mmr_category s ≡ MmrCategory.best)
    writes = ground (
      arith,
      eq_iff s "1v1",
      eq_iff s "2v2",
      eq_iff s "3v3",
      eq_iff s "casual",
      eq_iff s "t",
      eq_iff s "hoops",
      eq_iff s "rumble",
      eq_iff s "dropshot",
      eq_iff s "snowday",
      eq_iff s "heatseeker",
    )

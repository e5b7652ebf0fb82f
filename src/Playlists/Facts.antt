-- ===== src/Playlists/Facts.antt =====
-- What the table `kPlaylists` guarantees to the code that reads it.
use omni_stats.Prelude.{
  ◌≡◌, refl, Bool, true, false, ◌&&◌, ◌||◌, not, List, [], ◌∷◌, some, arith, str_eq, is_some,
  all_of, any_of, All,
}
use omni_stats.Prelude.Int.{ℤ, eqb_ℤ}
use omni_stats.Playlists.{
  Info, PlaylistClass, MmrCategory, playlists, find, find_in, class_eq, is_tracked_competitive_mode,
  string_to_mmr_category,
}

-- No id occurs twice.
distinct_ids : List Info → Bool
distinct_ids [] = true
distinct_ids (p ∷ ps) = not (any_of (λ o. eqb_ℤ o.id p.id) ps) && distinct_ids ps

find_in-found :
    (p : Info) (ps : List Info) (o : Info)
    → eqb_ℤ p.id o.id ≡ false
    → find_in o.id ps ≡ some o
    → find_in o.id (p ∷ ps) ≡ some o
find_in-found p ps o e h = rw e h

found_behind :
    (p : Info) (ps l : List Info)
    → any_of (λ o. eqb_ℤ o.id p.id) l ≡ false
    → All (λ o. find_in o.id ps ≡ some o) l
    → All (λ o. find_in o.id (p ∷ ps) ≡ some o) l
found_behind p ps [] h a = tt
found_behind p ps (o ∷ l) h a =
    (find_in-found p ps o (ground arith) a.0, found_behind p ps l (ground arith) a.1)

distinct-found : (l : List Info) → distinct_ids l ≡ true → All (λ p. find_in p.id l ≡ some p) l
unfolding distinct_ids
distinct-found [] h = tt
distinct-found (p ∷ l) h =
    let own : eqb_ℤ p.id p.id ≡ true = ground arith in
    (rw own, found_behind p l l (ground arith) (distinct-found l (ground arith)))

playlists_distinct : distinct_ids playlists ≡ true
unfolding distinct_ids playlists
playlists_distinct = refl

-- `Find` gives back every row of the table by its id: no row is hidden behind another.
pub find-playlists : All (λ p. find p.id ≡ some p) playlists
unfolding find
find-playlists = distinct-found playlists playlists_distinct

-- What `Find` returns passes every test that the whole table passes.
find_in-all_of :
    (test : Info → Bool) (id : ℤ) (l : List Info) (info : Info)
    → all_of test l ≡ true
    → find_in id l ≡ some info
    → test info ≡ true
find_in-all_of test id [] info h e = cc
find_in-all_of test id (p ∷ l) info h e = ground (arith, find_in-all_of test id l info)

abbrev same : Bool → Bool → Bool
same true b = b
same false b = not b

same-eq : (a b : Bool) → same a b ≡ true → a ≡ b
same-eq true b h = ground arith
same-eq false b h = ground arith

-- The classes with a rank of their own.
abbrev pub is_competitive : PlaylistClass → Bool
is_competitive c = class_eq c PlaylistClass.ranked || class_eq c PlaylistClass.tournament

-- The number of a category in the enumeration; `eqb` on categories.
abbrev pub category_eq : MmrCategory → MmrCategory → Bool
category_eq MmrCategory.best MmrCategory.best = true
category_eq MmrCategory.one_v_one MmrCategory.one_v_one = true
category_eq MmrCategory.two_v_two MmrCategory.two_v_two = true
category_eq MmrCategory.three_v_three MmrCategory.three_v_three = true
category_eq MmrCategory.casual MmrCategory.casual = true
category_eq MmrCategory.tourny MmrCategory.tourny = true
category_eq MmrCategory.hoops MmrCategory.hoops = true
category_eq MmrCategory.rumble MmrCategory.rumble = true
category_eq MmrCategory.dropshot MmrCategory.dropshot = true
category_eq MmrCategory.snow_day MmrCategory.snow_day = true
category_eq MmrCategory.heatseeker MmrCategory.heatseeker = true
category_eq _ _ = false

pub category_eq-eq : (a b : MmrCategory) → category_eq a b ≡ true → a ≡ b
category_eq-eq a b h = ground arith

abbrev reason_agrees : Info → Bool
reason_agrees i =
    same (is_some i.non_recordable_reason) (class_eq i.playlist_class PlaylistClass.non_recordable)

abbrev mode_agrees : Info → Bool
mode_agrees i =
    same (is_tracked_competitive_mode i.canonical_mode) (is_competitive i.playlist_class)

abbrev category_agrees : Info → Bool
category_agrees i = category_eq (string_to_mmr_category i.mmr_key) i.mmr_category

abbrev key_agrees : Info → Bool
key_agrees i =
    same (str_eq i.mmr_key "")
      (not (is_competitive i.playlist_class || class_eq i.playlist_class PlaylistClass.casual))

reasons_agree : all_of reason_agrees playlists ≡ true
unfolding playlists
reasons_agree = refl

modes_agree : all_of mode_agrees playlists ≡ true
unfolding playlists is_tracked_competitive_mode
modes_agree = refl

categories_agree : all_of category_agrees playlists ≡ true
unfolding playlists string_to_mmr_category
categories_agree = refl

keys_agree : all_of key_agrees playlists ≡ true
unfolding playlists
keys_agree = refl

-- For every id that `Find` knows: a playlist has a reason not to be recorded exactly when its class
-- is non-recordable; its mode is a tracked competitive one exactly when its class is ranked or
-- tournament; its rating key names its category, and is empty exactly when its class is neither of
-- these nor casual.
pub find_lem :
    (id : ℤ) (info : Info)
    → find id ≡ some info
    → (is_some info.non_recordable_reason
        ≡ class_eq info.playlist_class PlaylistClass.non_recordable)
      × (is_tracked_competitive_mode info.canonical_mode ≡ is_competitive info.playlist_class)
      × (string_to_mmr_category info.mmr_key ≡ info.mmr_category)
      × (str_eq info.mmr_key ""
          ≡ not (
              is_competitive info.playlist_class
              || class_eq info.playlist_class PlaylistClass.casual))
unfolding find
find_lem id info h = (
  same-eq _ _ (find_in-all_of reason_agrees id playlists info reasons_agree h),
  same-eq _ _ (find_in-all_of mode_agrees id playlists info modes_agree h),
  category_eq-eq _ _ (find_in-all_of category_agrees id playlists info categories_agree h),
  same-eq _ _ (find_in-all_of key_agrees id playlists info keys_agree h),
)

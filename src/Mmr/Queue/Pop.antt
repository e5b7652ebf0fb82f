-- ===== src/Mmr/Queue/Pop.antt =====
-- `PopNext` and `PopNextPostMatch`: which request leaves the queue, and what stays.
use mathlib.Core.List.{append_assoc, append-nil}
use omni_stats.Prelude.{
  ℕ, suc, ◌≤◌, ◌<◌, ◌≡◌, refl, sym, ap, ◌∙◌, subst, ◌⊎◌, inl, inr, true, false, List, [], ◌∷◌, ◌++◌,
  Option, none, some, arith, ltb, ltb→lt, if◌then◌else◌, any_of, find_if, erase_first, FirstOf,
  find_if-FirstOf, length, length-append, All, All-append, All-imp, any_of-append, Bool-cases,
}
use omni_stats.Mmr.{MmrRequest, MmrRequestReason, roster, post_match, tracked_account, is_ready}
use omni_stats.Mmr.Queue.{
  MmrRequestQueue, better, scan_best, erase_at, pop_best, pop_next, pop_next_post_match,
}

module _ (reason : MmrRequestReason) (now : ℕ) where
  abbrev Later : ℕ → MmrRequest → Type 0
  Later t x = (is_ready reason now x ≡ false) ⊎ (t < x.not_before)

  abbrev NotSooner : ℕ → MmrRequest → Type 0
  NotSooner t x = (is_ready reason now x ≡ false) ⊎ (t ≤ x.not_before)

  -- `r` is the first of the earliest ready requests of `l`, between `xs` and `ys`.
  pub record Earliest (l xs ys : List MmrRequest) (r : MmrRequest) : Type 0 where
    pub split : l ≡ xs ++ r ∷ ys
    pub ready : is_ready reason now r ≡ true
    pub before : All (Later r.not_before) xs
    pub after : All (NotSooner r.not_before) ys

  abbrev BestOf : List MmrRequest → Option (ℕ × MmrRequest) → Type 0
  BestOf l none = any_of (is_ready reason now) l ≡ false
  BestOf l (some (j, b)) =
      (xs : List MmrRequest) × (ys : List MmrRequest) × (length xs ≡ j) × Earliest l xs ys b

  no_ready-Later :
      (t : ℕ) (l : List MmrRequest) → any_of (is_ready reason now) l ≡ false → All (Later t) l
  no_ready-Later t [] h = tt
  no_ready-Later t (x ∷ l) h = (inl (ground arith), no_ready-Later t l (ground arith))

  better-BestOf :
      (l : List MmrRequest) (best : Option (ℕ × MmrRequest)) (r : MmrRequest)
      → BestOf l best
      → is_ready reason now r ≡ true
      → BestOf (l ++ r ∷ []) (better (length l) r best)
  better-BestOf l none r h e = (
    l,
    [],
    refl,
    record { split = refl; ready = e; before = no_ready-Later r.not_before l h; after = tt },
  )
  better-BestOf l (some (j, b)) r (xs, ys, len, o) e =
      elim (Bool-cases (ltb r.not_before b.not_before)) [
        | inl sooner ↦ rw sooner (
          l,
          [],
          refl,
          record {
            split = refl;
            ready = e;
            before = subst (All (Later r.not_before)) (sym o.split) (
                All-append (Later r.not_before) xs (b ∷ ys)
                  (All-imp (Later b.not_before) (Later r.not_before) (λ x f. ground arith) xs
                    o.before)
                  (
                    inr (ground arith),
                    All-imp (NotSooner b.not_before) (Later r.not_before) (λ x f. ground arith) ys
                        o.after,
                  ));
            after = tt;
          },
        )
        | inr later ↦ rw later (
          xs,
          ys ++ r ∷ [],
          len,
          record {
            split = ap (λ z. z ++ r ∷ []) o.split ∙ append_assoc xs (b ∷ ys) (r ∷ []);
            ready = o.ready;
            before = o.before;
            after =
                All-append (NotSooner b.not_before) ys (r ∷ []) o.after (inr (ground arith), tt);
          },
        )
      ]

  skip-BestOf :
      (l : List MmrRequest) (best : Option (ℕ × MmrRequest)) (r : MmrRequest)
      → BestOf l best
      → is_ready reason now r ≡ false
      → BestOf (l ++ r ∷ []) best
  skip-BestOf l none r h e = rw (any_of-append (is_ready reason now) l (r ∷ []), h) (ground arith)
  skip-BestOf l (some (j, b)) r (xs, ys, len, o) e = (
    xs,
    ys ++ r ∷ [],
    len,
    record {
      split = ap (λ z. z ++ r ∷ []) o.split ∙ append_assoc xs (b ∷ ys) (r ∷ []);
      ready = o.ready;
      before = o.before;
      after = All-append (NotSooner b.not_before) ys (r ∷ []) o.after (inl e, tt);
    },
  )

  scan_best-BestOf :
      (l : List MmrRequest) (i : ℕ) (best : Option (ℕ × MmrRequest)) (rs : List MmrRequest)
      → length l ≡ i
      → BestOf l best
      → BestOf (l ++ rs) (scan_best reason now i best rs)
  unfolding scan_best
  scan_best-BestOf l i best [] len h = rw append-nil h
  scan_best-BestOf l i best (r ∷ rs) len h = rw (← append_assoc l (r ∷ []) rs) (
      scan_best-BestOf (l ++ r ∷ []) (suc i)
        (if is_ready reason now r then better i r best else best) rs
        (omega (arith, length-append l (r ∷ [])))
        (elim (Bool-cases (is_ready reason now r)) [
          | inl e ↦ rw (e, ← len) (better-BestOf l best r h e)
          | inr e ↦ rw e (skip-BestOf l best r h e)
        ]))

  erase_at-length :
      (xs ys : List MmrRequest) (r : MmrRequest) → erase_at (length xs) (xs ++ r ∷ ys) ≡ xs ++ ys
  erase_at-length [] ys r = refl
  erase_at-length (x ∷ xs) ys r = rw (erase_at-length xs ys r)

  -- What `pop_best` answers, for the best request that the scan found.
  abbrev PopsBest : MmrRequestQueue → Option (MmrRequestQueue × MmrRequest) → Type 0
  PopsBest q none = any_of (is_ready reason now) q.queue ≡ false
  PopsBest q (some (q', r)) =
      (xs : List MmrRequest) × (ys : List MmrRequest) × (q' ≡ record q { queue = xs ++ ys })
      × Earliest q.queue xs ys r

  pop_best-PopsBest : (q : MmrRequestQueue) → PopsBest q (pop_best reason now q)
  unfolding pop_best
  pop_best-PopsBest q =
      found (scan_best reason now 0 none q.queue) (scan_best-BestOf [] 0 none q.queue refl refl)
    where
      found :
          (best : Option (ℕ × MmrRequest))
          → BestOf q.queue best
          → PopsBest q (elim best [
            | none ↦ none
            | some (i, r) ↦ some (record q { queue = erase_at i q.queue }, r)
          ])
      found none h = h
      found (some (i, r)) (xs, ys, len, o) = (
        xs,
        ys,
        rw (← len) (
            ap (λ l. record q { queue = l })
              (ap (erase_at (length xs)) o.split ∙ erase_at-length xs ys r)),
        o,
      )

-- The reason that `PopNext` serves: a roster request goes before a tracked account's.
abbrev pub Served : MmrRequestReason → ℕ → MmrRequestQueue → Type 0
Served reason now q =
    (reason ≡ roster)
    ⊎ ((reason ≡ tracked_account) × (any_of (is_ready roster now) q.queue ≡ false))

pub data PopsNext (now : ℕ) (q : MmrRequestQueue)
    : MmrRequestQueue × Option MmrRequest → Type 0 where
  limited : now < q.rate_limited_until → PopsNext now q (q, none)
  idle :
      q.rate_limited_until ≤ now
      → any_of (is_ready roster now) q.queue ≡ false
      → any_of (is_ready tracked_account now) q.queue ≡ false
      → PopsNext now q (q, none)
  pops :
      (reason : MmrRequestReason) (xs ys : List MmrRequest) (r : MmrRequest)
      → q.rate_limited_until ≤ now
      → Served reason now q
      → Earliest reason now q.queue xs ys r
      → PopsNext now q (record q { queue = xs ++ ys }, some r)

serve :
    (now : ℕ) (q : MmrRequestQueue) (a b : Option (MmrRequestQueue × MmrRequest))
    → q.rate_limited_until ≤ now
    → PopsBest roster now q a
    → PopsBest tracked_account now q b
    → PopsNext now q (elim a [
      | some (q', r) ↦ (q', some r)
      | none ↦ elim b [ some (q', r) ↦ (q', some r) | none ↦ (q, none) ]
    ])
serve now q (some (q', r)) b le (xs, ys, e, o) k = rw e (pops roster xs ys r le (inl refl) o)
serve now q none (some (q', r)) le h (xs, ys, e, o) =
    rw e (pops tracked_account xs ys r le (inr (refl, h)) o)
serve now q none none le h k = idle le h k

-- `PopNext` answers nothing while the queue is rate limited and when no roster or tracked request
-- is ready, and then changes nothing. Otherwise it takes out a ready request of the reason that is
-- served first, the earliest by `notBefore` and among equals the first in the queue; the other
-- requests stay in order and no other field changes.
pub pop_next-PopsNext : (now : ℕ) (q : MmrRequestQueue) → PopsNext now q (pop_next now q)
unfolding pop_next
pop_next-PopsNext now q = elim (Bool-cases (ltb now q.rate_limited_until)) [
  | inl e ↦ rw e (limited (ltb→lt now q.rate_limited_until e))
  | inr e ↦ rw e (
      serve now q (pop_best roster now q) (pop_best tracked_account now q) (ground arith)
        (pop_best-PopsBest roster now q) (pop_best-PopsBest tracked_account now q))
]

-- The first ready post-match request, and the queue without it.
pub data PopsPostMatch (now : ℕ) (q : MmrRequestQueue)
    : MmrRequestQueue × Option MmrRequest → Type 0 where
  limited : now < q.rate_limited_until → PopsPostMatch now q (q, none)
  idle :
      q.rate_limited_until ≤ now
      → any_of (is_ready post_match now) q.queue ≡ false
      → PopsPostMatch now q (q, none)
  pops :
      (xs ys : List MmrRequest) (r : MmrRequest)
      → q.rate_limited_until ≤ now
      → q.queue ≡ xs ++ r ∷ ys
      → any_of (is_ready post_match now) xs ≡ false
      → is_ready post_match now r ≡ true
      → PopsPostMatch now q (record q { queue = xs ++ ys }, some r)

take_PopsPostMatch :
    (now : ℕ) (q : MmrRequestQueue) (o : Option MmrRequest)
    → q.rate_limited_until ≤ now
    → FirstOf (is_ready post_match now) q.queue o
    → PopsPostMatch now q (elim o [
      | none ↦ (q, none)
      | some r ↦ (record q { queue = erase_first (is_ready post_match now) q.queue }, some r)
    ])
take_PopsPostMatch now q none le h = idle le h.0
take_PopsPostMatch now q (some r) le (xs, ys, s, n, t, u) = rw u (pops xs ys r le s n t)

-- `PopNextPostMatch` answers nothing while the queue is rate limited and when no post-match request
-- is ready, and then changes nothing. Otherwise it takes out the first ready one in queue order;
-- the other requests stay in order and no other field changes.
pub pop_next_post_match-PopsPostMatch :
    (now : ℕ) (q : MmrRequestQueue) → PopsPostMatch now q (pop_next_post_match now q)
unfolding pop_next_post_match
pop_next_post_match-PopsPostMatch now q = elim (Bool-cases (ltb now q.rate_limited_until)) [
  | inl e ↦ rw e (limited (ltb→lt now q.rate_limited_until e))
  | inr e ↦ rw e (
      take_PopsPostMatch now q (find_if (is_ready post_match now) q.queue) (ground arith)
        (find_if-FirstOf (is_ready post_match now) q.queue))
]

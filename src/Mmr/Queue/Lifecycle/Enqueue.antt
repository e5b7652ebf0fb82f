-- ===== src/Mmr/Queue/Lifecycle/Enqueue.antt =====
-- The invariant over requests that leave the queue, and over those that are added to it.
use omni_stats.Prelude.{
  ℕ, ◌+◌, ◌^◌, ◌≤◌, ◌<◌, ◌≡◌, refl, sym, ap, subst, inl, inr, ◌⊎◌, String, Bool, true, false, List,
  [], ◌∷◌, ◌++◌, Option, none, some, arith, str_eq, eq_iff, if◌then◌else◌, count_if,
  count_if-append, Bool-cases, Option-cases,
}
use omni_stats.Prelude.Maps.{member, insert_key, insert, lookup, member-insert_key, lookup-insert}
use omni_stats.Mmr.{MmrRequest, roster, post_match, tracked_account}
use omni_stats.Mmr.Queue.{
  push_back, roster_request, tracked_request, next_generation, MmrRequestQueue, enqueue_roster,
  enqueue_post_match, enqueue_tracked_account,
}
use omni_stats.Mmr.Queue.Flow.{Moved}
use omni_stats.Mmr.Queue.Lifecycle.{
  System, roster_for, post_match_for, current_for, is_stale, is_ahead, AtMost, one_if, Inv,
}

-- Requests that leave the queue for the worker.
pub received-Inv :
    (s : System) (q' : MmrRequestQueue) (out : List MmrRequest)
    → Moved s.queue q' out
    → Inv s
    → Inv (record { queue = q'; in_flight = out ++ s.in_flight })
received-Inv s q' out m v =
    subst (λ q. Inv (record { queue = q; in_flight = out ++ s.in_flight })) (sym m.shape)
      (record {
        one_roster = λ k. omega (
          arith,
          v.one_roster k,
          m.conserved (roster_for k) (λ g r. refl),
          count_if-append (roster_for k) out s.in_flight,
        );
        one_post_match = λ k. omega (
          arith,
          v.one_post_match k,
          m.conserved (post_match_for k) (λ g r. refl),
          count_if-append (post_match_for k) out s.in_flight,
        );
        one_tracked = λ k. omega (
          arith,
          v.one_tracked k,
          m.conserved (current_for k s.queue) (λ g r. refl),
          count_if-append (current_for k s.queue) out s.in_flight,
        );
        none_stale = omega (arith, v.none_stale, m.conserved (is_stale s.queue) (λ g r. refl));
        none_ahead = omega (
          arith,
          v.none_ahead,
          m.conserved (is_ahead s.queue.next_tracked_generation) (λ g r. refl),
          count_if-append (is_ahead s.queue.next_tracked_generation) out s.in_flight,
        );
        map_behind = v.map_behind;
      })

-- How the counts change when a request is appended.
module _ (q : MmrRequestQueue) (r : MmrRequest) (p : MmrRequest → Bool) where
  count_if-push_back : count_if p (q.queue ++ r ∷ []) ≡ count_if p q.queue + one_if (p r)
  count_if-push_back = ground (arith, count_if-append p q.queue (r ∷ []))

push_roster-Inv :
    (s : System) (r : MmrRequest)
    → r.reason ≡ roster
    → member r.primary_id s.queue.roster_queued_or_in_flight ≡ false
    → Inv s
    → Inv (record s {
      queue = push_back r (record s.queue {
        roster_queued_or_in_flight = insert_key r.primary_id s.queue.roster_queued_or_in_flight;
      });
    })
push_roster-Inv s r e m v = record {
  one_roster = λ k. ground (
    arith,
    v.one_roster k,
    count_if-push_back s.queue r (roster_for k),
    member-insert_key r.primary_id k s.queue.roster_queued_or_in_flight,
    eq_iff r.primary_id k,
  );
  one_post_match =
      λ k. ground (arith, v.one_post_match k, count_if-push_back s.queue r (post_match_for k));
  one_tracked =
      λ k. ground (arith, v.one_tracked k, count_if-push_back s.queue r (current_for k s.queue));
  none_stale = ground (arith, v.none_stale, count_if-push_back s.queue r (is_stale s.queue));
  none_ahead = ground (
    arith,
    v.none_ahead,
    count_if-push_back s.queue r (is_ahead s.queue.next_tracked_generation),
  );
  map_behind = v.map_behind;
}

pub enqueue_roster-Inv :
    (s : System) (now : ℕ) (primary_id name : String) (session_gen : ℕ)
    → Inv s
    → Inv (record s { queue = (enqueue_roster now primary_id name session_gen s.queue).0 })
unfolding enqueue_roster
enqueue_roster-Inv s now primary_id name session_gen v = elim (Bool-cases (str_eq primary_id "")) [
  | inl e ↦ rw e v
  | inr e ↦ rw e (elim (Bool-cases (member primary_id s.queue.roster_queued_or_in_flight)) [
    | inl m ↦ rw m v
    | inr m ↦
        rw m (rw m at (push_roster-Inv s (roster_request now primary_id name session_gen) refl m v))
  ])
]

push_post_match-Inv :
    (s : System) (r : MmrRequest)
    → r.reason ≡ post_match
    → member r.match_guid s.queue.pending_post_match_guids ≡ false
    → Inv s
    → Inv (record s {
      queue = push_back r (record s.queue {
        pending_post_match_guids = insert_key r.match_guid s.queue.pending_post_match_guids;
      });
    })
push_post_match-Inv s r e m v = record {
  one_roster = λ k. ground (arith, v.one_roster k, count_if-push_back s.queue r (roster_for k));
  one_post_match = λ k. ground (
    arith,
    v.one_post_match k,
    count_if-push_back s.queue r (post_match_for k),
    member-insert_key r.match_guid k s.queue.pending_post_match_guids,
    eq_iff r.match_guid k,
  );
  one_tracked =
      λ k. ground (arith, v.one_tracked k, count_if-push_back s.queue r (current_for k s.queue));
  none_stale = ground (arith, v.none_stale, count_if-push_back s.queue r (is_stale s.queue));
  none_ahead = ground (
    arith,
    v.none_ahead,
    count_if-push_back s.queue r (is_ahead s.queue.next_tracked_generation),
  );
  map_behind = v.map_behind;
}

pub enqueue_post_match-Inv :
    (s : System) (req : MmrRequest)
    → Inv s
    → Inv (record s { queue = (enqueue_post_match req s.queue).0 })
unfolding enqueue_post_match
enqueue_post_match-Inv s req v = elim (Bool-cases (str_eq req.match_guid "")) [
  | inl e ↦ rw e v
  | inr e ↦ rw e (elim (Bool-cases (member req.match_guid s.queue.pending_post_match_guids)) [
    | inl m ↦ rw m v
    | inr m ↦ rw m (rw m at (push_post_match-Inv s (record req { reason = post_match }) refl m v))
  ])
]

-- Of two counts, the one by the stronger test is not larger.
pub count_if_mono :
    (p p' : MmrRequest → Bool)
    → ((r : MmrRequest) → (p r ≡ false) ⊎ (p' r ≡ true))
    → (l : List MmrRequest) → count_if p l ≤ count_if p' l
count_if_mono p p' h [] = omega arith
count_if_mono p p' h (r ∷ l) = ground (arith, h r, count_if_mono p p' h l)

-- Registering a generation ahead of the counter: the outstanding requests of that account are not
-- current any more, and those of the others are current as before.
module _ (q q' : MmrRequestQueue) (k : String) (g : ℕ) where
  registered_here :
      q'.tracked_queued_or_in_flight ≡ insert k g q.tracked_queued_or_in_flight
      → q.next_tracked_generation < g
      → (r : MmrRequest)
      → (current_for k q' r ≡ false) ⊎ (is_ahead q.next_tracked_generation r ≡ true)
  registered_here e h r = ground (
    arith,
    ap (lookup r.primary_id) e,
    lookup-insert k r.primary_id g q.tracked_queued_or_in_flight,
    eq_iff r.primary_id k,
    eq_iff k r.primary_id,
    eq_iff k k,
    ap (lookup k) e,
    lookup-insert k k g q.tracked_queued_or_in_flight,
  )

  registered_elsewhere :
      q'.tracked_queued_or_in_flight ≡ insert k g q.tracked_queued_or_in_flight
      → (j : String) → str_eq k j ≡ false
      → (r : MmrRequest) → (current_for j q' r ≡ false) ⊎ (current_for j q r ≡ true)
  registered_elsewhere e j h r =
      ground (arith, ap (lookup j) e, lookup-insert k j g q.tracked_queued_or_in_flight)

AtMost-mono : (o : Option ℕ) (m n : ℕ) → m ≤ n → AtMost o m → AtMost o n
AtMost-mono none m n h a = tt
AtMost-mono (some g) m n h a = omega arith

AtMost-if :
    (b : Bool) (g n : ℕ) (o : Option ℕ) → g ≤ n → AtMost o n → AtMost (if b then some g else o) n
AtMost-if true g n o h a = h
AtMost-if false g n o h a = a

-- The queue's state when the request for `k` with the new generation `g` is registered.
abbrev registered : MmrRequestQueue → String → ℕ → MmrRequestQueue
registered q k g = record q {
  next_tracked_generation = g;
  tracked_queued_or_in_flight = insert k g q.tracked_queued_or_in_flight;
}

module _ (s : System) (r : MmrRequest) (g : ℕ) (is_tracked : r.reason ≡ tracked_account)
    (stamped : r.tracked_generation ≡ g)
    (unknown : lookup r.primary_id s.queue.tracked_queued_or_in_flight ≡ none)
    (fresh : s.queue.next_tracked_generation < g) (v : Inv s) where
  abbrev q' : MmrRequestQueue
  q' = registered s.queue r.primary_id g

  tracked_here :
      (j : String)
      → str_eq r.primary_id j ≡ true
      → (l : List MmrRequest)
      → count_if (current_for j q') l ≤ count_if (is_ahead s.queue.next_tracked_generation) l
  tracked_here j e l =
      let same : r.primary_id ≡ j = (eq_iff r.primary_id j).0 e in
      rw (← same) (
        count_if_mono (current_for r.primary_id q') (is_ahead s.queue.next_tracked_generation)
          (registered_here s.queue q' r.primary_id g refl fresh) l)

  tracked_elsewhere :
      (j : String)
      → str_eq r.primary_id j ≡ false
      → (l : List MmrRequest) → count_if (current_for j q') l ≤ count_if (current_for j s.queue) l
  tracked_elsewhere j e l =
      count_if_mono (current_for j q') (current_for j s.queue)
        (registered_elsewhere s.queue q' r.primary_id g refl j e) l

  still_current : (x : MmrRequest) → (is_stale q' x ≡ false) ⊎ (is_stale s.queue x ≡ true)
  still_current x = ground (
    arith,
    unknown,
    lookup-insert r.primary_id x.primary_id g s.queue.tracked_queued_or_in_flight,
    eq_iff r.primary_id x.primary_id,
  )

  less_ahead :
      (x : MmrRequest)
      → (is_ahead g x ≡ false) ⊎ (is_ahead s.queue.next_tracked_generation x ≡ true)
  less_ahead x = ground arith

  push_tracked-Inv : Inv (record s { queue = push_back r q' })
  push_tracked-Inv = record {
    one_roster = λ k. ground (arith, v.one_roster k, count_if-push_back s.queue r (roster_for k));
    one_post_match =
        λ k. ground (arith, v.one_post_match k, count_if-push_back s.queue r (post_match_for k));
    one_tracked = λ k. elim (Bool-cases (str_eq r.primary_id k)) [
      | inl e ↦ ground (
        arith,
        v.none_ahead,
        tracked_here k e s.queue.queue,
        tracked_here k e s.in_flight,
        count_if-push_back s.queue r (current_for k q'),
      )
      | inr e ↦ ground (
        arith,
        v.one_tracked k,
        tracked_elsewhere k e s.queue.queue,
        tracked_elsewhere k e s.in_flight,
        count_if-push_back s.queue r (current_for k q'),
      )
    ];
    none_stale = ground (
      arith,
      v.none_stale,
      count_if_mono (is_stale q') (is_stale s.queue) still_current s.queue.queue,
      count_if-push_back s.queue r (is_stale q'),
      lookup-insert r.primary_id r.primary_id g s.queue.tracked_queued_or_in_flight,
      eq_iff r.primary_id r.primary_id,
    );
    none_ahead = ground (
      arith,
      v.none_ahead,
      count_if_mono (is_ahead g) (is_ahead s.queue.next_tracked_generation) less_ahead
          s.queue.queue,
      count_if_mono (is_ahead g) (is_ahead s.queue.next_tracked_generation) less_ahead s.in_flight,
      count_if-push_back s.queue r (is_ahead g),
    );
    map_behind = λ k. rw (lookup-insert r.primary_id k g s.queue.tracked_queued_or_in_flight) (
        AtMost-if (str_eq r.primary_id k) g g (lookup k s.queue.tracked_queued_or_in_flight)
          (omega arith)
          (AtMost-mono (lookup k s.queue.tracked_queued_or_in_flight)
            s.queue.next_tracked_generation g (omega arith) (v.map_behind k)));
  }

pub enqueue_tracked_account-Inv :
    (s : System) (now : ℕ) (primary_id name : String)
    → s.queue.next_tracked_generation + 1 < 2 ^ 64
    → Inv s
    → Inv (record s { queue = (enqueue_tracked_account now primary_id name s.queue).0 })
unfolding enqueue_tracked_account
enqueue_tracked_account-Inv s now primary_id name h v = elim (Bool-cases (str_eq primary_id "")) [
  | inl e ↦ rw e v
  | inr e ↦ rw e (elim (Option-cases (lookup primary_id s.queue.tracked_queued_or_in_flight)) [
    | inr (g, m) ↦ rw m v
    | inl m ↦ rw m (
        push_tracked-Inv s (tracked_request now primary_id name (next_generation s.queue))
          (next_generation s.queue) refl refl m (omega arith) v)
  ])
]

-- ===== src/Mmr/Queue/Lifecycle/Release.antt =====
-- The invariant over cancelling, giving back and finishing requests.
use omni_stats.Prelude.{
  ℕ, ◌+◌, ◌≤◌, ◌≡◌, refl, ap, inl, inr, ◌⊎◌, String, Bool, true, false, List, [], ◌∷◌, ◌++◌, Option,
  none, arith, str_eq, eq_iff, if◌then◌else◌, count_if, count_if-append, erase_if, Bool-cases,
  is_some,
}
use omni_stats.Prelude.Int.{ℤ}
use omni_stats.Prelude.Maps.{erase_key, erase, lookup, member-erase_key, lookup-erase}
use omni_stats.Mmr.{MmrRequest, MmrRequestReason, roster, post_match, tracked_account}
use omni_stats.Mmr.Queue.{
  MmrRequestQueue, cancel_tracked_account, commit_retry, requeue_forbidden, finish, clear,
  is_tracked_for, is_tracked_current, is_retryable, next_strike, next_lockout,
}
use omni_stats.Mmr.Queue.Lifecycle.{
  System, roster_for, post_match_for, current_for, is_stale, is_ahead, AtMost, one_if, given_back,
  Inv,
}
use omni_stats.Mmr.Queue.Lifecycle.Enqueue.{count_if_mono}

count_if-erase_if :
    (p d : MmrRequest → Bool) (l : List MmrRequest) → count_if p (erase_if d l) ≤ count_if p l
count_if-erase_if p d [] = omega arith
count_if-erase_if p d (r ∷ l) = ground (arith, count_if-erase_if p d l)

AtMost-erase : (b : Bool) (n : ℕ) (o : Option ℕ) → AtMost o n → AtMost (if b then none else o) n
AtMost-erase true n o a = tt
AtMost-erase false n o a = a

-- Without the entry of one account no other request loses its generation.
abbrev forgotten : MmrRequestQueue → String → MmrRequestQueue
forgotten q k = record q { tracked_queued_or_in_flight = erase k q.tracked_queued_or_in_flight }

module _ (q : MmrRequestQueue) (k : String) where
  forgotten-current_for :
      (j : String) (r : MmrRequest)
      → (current_for j (forgotten q k) r ≡ false) ⊎ (current_for j q r ≡ true)
  forgotten-current_for j r =
      ground (arith, lookup-erase k j q.tracked_queued_or_in_flight, eq_iff k j)

  forgotten-is_stale :
      (r : MmrRequest)
      → is_tracked_for k r ≡ false
      → (is_stale (forgotten q k) r ≡ false) ⊎ (is_stale q r ≡ true)
  forgotten-is_stale r h = ground (
    arith,
    lookup-erase k r.primary_id q.tracked_queued_or_in_flight,
    eq_iff k r.primary_id,
    eq_iff r.primary_id k,
  )

  forgotten-kept :
      (l : List MmrRequest)
      → count_if (is_stale (forgotten q k)) (erase_if (is_tracked_for k) l)
        ≤ count_if (is_stale q) l
  forgotten-kept [] = omega arith
  forgotten-kept (r ∷ l) = elim (Bool-cases (is_tracked_for k r)) [
    | inl e ↦ rw e (ground (arith, forgotten-kept l))
    | inr e ↦ rw e (ground (arith, forgotten-kept l, forgotten-is_stale r e))
  ]

  -- Forgetting an account that has no current request in the queue.
  forgotten-unqueued :
      (l : List MmrRequest)
      → count_if (is_stale (forgotten q k)) l
        ≤ count_if (is_stale q) l + count_if (current_for k q) l
  forgotten-unqueued [] = omega arith
  forgotten-unqueued (r ∷ l) = elim (Bool-cases (is_tracked_for k r)) [
    | inl e ↦ ground (arith, forgotten-unqueued l, eq_iff r.primary_id k)
    | inr e ↦ ground (arith, forgotten-unqueued l, forgotten-is_stale r e)
  ]

  forgotten-behind :
      (j : String) (n : ℕ)
      → AtMost (lookup j q.tracked_queued_or_in_flight) n
      → AtMost (lookup j (forgotten q k).tracked_queued_or_in_flight) n
  forgotten-behind j n h =
      rw (lookup-erase k j q.tracked_queued_or_in_flight)
        (AtMost-erase (str_eq k j) n (lookup j q.tracked_queued_or_in_flight) h)

  forgotten-count :
      (j : String) (l : List MmrRequest)
      → count_if (current_for j (forgotten q k)) l ≤ count_if (current_for j q) l
  forgotten-count j l =
      count_if_mono (current_for j (forgotten q k)) (current_for j q) (forgotten-current_for j) l

pub cancel_tracked_account-Inv :
    (s : System) (k : String) → Inv s → Inv (record s { queue = cancel_tracked_account k s.queue })
unfolding cancel_tracked_account
cancel_tracked_account-Inv s k v =
    let l = s.queue.queue in
    let d = is_tracked_for k in
    record {
      one_roster = λ j. omega (arith, v.one_roster j, count_if-erase_if (roster_for j) d l);
      one_post_match =
          λ j. omega (arith, v.one_post_match j, count_if-erase_if (post_match_for j) d l);
      one_tracked = λ j. omega (
        arith,
        v.one_tracked j,
        count_if-erase_if (current_for j (forgotten s.queue k)) d l,
        forgotten-count s.queue k j l,
        forgotten-count s.queue k j s.in_flight,
      );
      none_stale = omega (arith, v.none_stale, forgotten-kept s.queue k l);
      none_ahead =
          omega
            (arith, v.none_ahead, count_if-erase_if (is_ahead s.queue.next_tracked_generation) d l);
      map_behind = λ j. forgotten-behind s.queue k j _ (v.map_behind j);
    }

pub relocked-Inv :
    (s : System) (strikes until : ℕ)
    → Inv s
    → Inv (record s {
      queue = record s.queue { forbidden_strike_count = strikes; rate_limited_until = until };
    })
relocked-Inv s strikes until v = record {
  one_roster = v.one_roster;
  one_post_match = v.one_post_match;
  one_tracked = v.one_tracked;
  none_stale = v.none_stale;
  none_ahead = v.none_ahead;
  map_behind = v.map_behind;
}

-- One request of those in flight is set apart.
count_if-apart :
    (p : MmrRequest → Bool) (xs ys l : List MmrRequest) (r : MmrRequest)
    → l ≡ xs ++ r ∷ ys
    → count_if p (xs ++ ys) + one_if (p r) ≡ count_if p l
count_if-apart p xs ys l r e =
    ground (arith, ap (count_if p) e, count_if-append p xs ys, count_if-append p xs (r ∷ ys))

-- A request in flight goes back to the queue, with another retry count and time.
module _ (s : System) (xs ys : List MmrRequest) (r : MmrRequest)
    (apart : s.in_flight ≡ xs ++ r ∷ ys) (v : Inv s) where
  give_back-Inv :
      (l : List MmrRequest) (strikes until : ℕ)
      → ((p : MmrRequest → Bool)
          → ((retries : ℤ) (time : ℕ)
              → p (record r { retries_remaining = retries; not_before = time }) ≡ p r)
          → count_if p l ≡ count_if p s.queue.queue + one_if (p r))
      → is_stale s.queue r ≡ false
      → Inv (record {
        queue = record s.queue {
          queue = l;
          forbidden_strike_count = strikes;
          rate_limited_until = until;
        };
        in_flight = xs ++ ys;
      })
  give_back-Inv l strikes until added current = record {
    one_roster = λ k. omega (
      arith,
      v.one_roster k,
      added (roster_for k) (λ n t. refl),
      count_if-apart (roster_for k) xs ys s.in_flight r apart,
    );
    one_post_match = λ k. omega (
      arith,
      v.one_post_match k,
      added (post_match_for k) (λ n t. refl),
      count_if-apart (post_match_for k) xs ys s.in_flight r apart,
    );
    one_tracked = λ k. omega (
      arith,
      v.one_tracked k,
      added (current_for k s.queue) (λ n t. refl),
      count_if-apart (current_for k s.queue) xs ys s.in_flight r apart,
    );
    none_stale =
        omega (arith, v.none_stale, added (is_stale s.queue) (λ n t. refl), ap one_if current);
    none_ahead = omega (
      arith,
      v.none_ahead,
      added (is_ahead s.queue.next_tracked_generation) (λ n t. refl),
      count_if-apart (is_ahead s.queue.next_tracked_generation) xs ys s.in_flight r apart,
    );
    map_behind = v.map_behind;
  }

  pub commit_retry-Inv :
      (retries : ℤ) (time : ℕ)
      → let req = record r { retries_remaining = retries; not_before = time } in
        Inv (given_back s (xs ++ ys) (commit_retry req s.queue))
  unfolding commit_retry
  commit_retry-Inv retries time = elim (Bool-cases (is_retryable r s.queue)) [
    | inr e ↦ rw e v
    | inl e ↦ rw e (
        give_back-Inv
          (s.queue.queue ++ record r { retries_remaining = retries; not_before = time } ∷ [])
          s.queue.forbidden_strike_count s.queue.rate_limited_until
          (λ p same. ground (
            arith,
            same retries time,
            count_if-append p s.queue.queue
                (record r { retries_remaining = retries; not_before = time } ∷ []),
          ))
          (ground arith))
  ]

  pub requeue_forbidden-Inv :
      (now : ℕ)
      → let result = requeue_forbidden true now r s.queue in
        Inv (given_back s (xs ++ ys) (result.0, is_some result.2))
  unfolding requeue_forbidden
  requeue_forbidden-Inv now = elim (Bool-cases (is_retryable r s.queue)) [
    | inr e ↦ rw e (relocked-Inv s (next_strike s.queue) (now + next_lockout s.queue) v)
    | inl e ↦ rw e (
        give_back-Inv (record r { not_before = now + next_lockout s.queue } ∷ s.queue.queue)
          (next_strike s.queue) (now + next_lockout s.queue)
          (λ p same. ground (arith, same r.retries_remaining (now + next_lockout s.queue)))
          (ground arith))
  ]

  removed-Inv : Inv (record s { in_flight = xs ++ ys })
  removed-Inv = record {
    one_roster =
        λ k. omega (arith, v.one_roster k, count_if-apart (roster_for k) xs ys s.in_flight r apart);
    one_post_match = λ k.
        omega
          (arith, v.one_post_match k, count_if-apart (post_match_for k) xs ys s.in_flight r apart);
    one_tracked = λ k.
        omega (
          arith,
          v.one_tracked k,
          count_if-apart (current_for k s.queue) xs ys s.in_flight r apart,
        );
    none_stale = v.none_stale;
    none_ahead = omega (
      arith,
      v.none_ahead,
      count_if-apart (is_ahead s.queue.next_tracked_generation) xs ys s.in_flight r apart,
    );
    map_behind = v.map_behind;
  }

  finish_roster-Inv :
      r.reason ≡ roster
      → Inv (record {
        queue = record s.queue {
          roster_queued_or_in_flight = erase_key r.primary_id s.queue.roster_queued_or_in_flight;
        };
        in_flight = xs ++ ys;
      })
  finish_roster-Inv e =
      let w = removed-Inv in
      record {
        one_roster = λ k. ground (
          arith,
          v.one_roster k,
          count_if-apart (roster_for k) xs ys s.in_flight r apart,
          member-erase_key r.primary_id k s.queue.roster_queued_or_in_flight,
          eq_iff r.primary_id k,
        );
        one_post_match = w.one_post_match;
        one_tracked = w.one_tracked;
        none_stale = w.none_stale;
        none_ahead = w.none_ahead;
        map_behind = w.map_behind;
      }

  finish_post_match-Inv :
      r.reason ≡ post_match
      → Inv (record {
        queue = record s.queue {
          pending_post_match_guids = erase_key r.match_guid s.queue.pending_post_match_guids;
        };
        in_flight = xs ++ ys;
      })
  finish_post_match-Inv e =
      let w = removed-Inv in
      record {
        one_roster = w.one_roster;
        one_post_match = λ k. ground (
          arith,
          v.one_post_match k,
          count_if-apart (post_match_for k) xs ys s.in_flight r apart,
          member-erase_key r.match_guid k s.queue.pending_post_match_guids,
          eq_iff r.match_guid k,
        );
        one_tracked = w.one_tracked;
        none_stale = w.none_stale;
        none_ahead = w.none_ahead;
        map_behind = w.map_behind;
      }

  finish_tracked-Inv :
      current_for r.primary_id s.queue r ≡ true
      → Inv (record { queue = forgotten s.queue r.primary_id; in_flight = xs ++ ys })
  finish_tracked-Inv e =
      let w = removed-Inv in
      let k = r.primary_id in
      record {
        one_roster = w.one_roster;
        one_post_match = w.one_post_match;
        one_tracked = λ j. omega (
          arith,
          w.one_tracked j,
          forgotten-count s.queue k j s.queue.queue,
          forgotten-count s.queue k j (xs ++ ys),
        );
        none_stale = omega (
          arith,
          v.none_stale,
          v.one_tracked k,
          forgotten-unqueued s.queue k s.queue.queue,
          count_if-apart (current_for k s.queue) xs ys s.in_flight r apart,
          ap one_if e,
        );
        none_ahead = w.none_ahead;
        map_behind = λ j. forgotten-behind s.queue k j _ (v.map_behind j);
      }

  finish-cases :
      (reason : MmrRequestReason)
      → r.reason ≡ reason
      → Inv (record { queue = finish r s.queue; in_flight = xs ++ ys })
  unfolding finish
  finish-cases roster e = rw (e, finish) (finish_roster-Inv e)
  finish-cases post_match e = rw (e, finish) (finish_post_match-Inv e)
  finish-cases tracked_account e =
      elim (Bool-cases (is_tracked_current r.primary_id r.tracked_generation s.queue)) [
        | inl c ↦
            rw (e, finish)
              (rw c (finish_tracked-Inv (ground (arith, eq_iff r.primary_id r.primary_id))))
        | inr c ↦ rw (e, finish) (rw c removed-Inv)
      ]

  pub finish-Inv : Inv (record { queue = finish r s.queue; in_flight = xs ++ ys })
  finish-Inv = finish-cases r.reason refl

pub clear-Inv : (s : System) → s.in_flight ≡ [] → Inv s → Inv (record s { queue = clear s.queue })
unfolding clear
clear-Inv s e v = record {
  one_roster = λ k. omega (arith, ap (count_if (roster_for k)) e);
  one_post_match = λ k. omega (arith, ap (count_if (post_match_for k)) e);
  one_tracked = λ k. omega (arith, ap (count_if (current_for k (clear s.queue))) e);
  none_stale = refl;
  none_ahead = omega (arith, v.none_ahead);
  map_behind = λ k. tt;
}

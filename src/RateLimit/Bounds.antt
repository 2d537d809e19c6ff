-- ===== src/RateLimit/Bounds.antt =====
-- The quota of the sliding window of internal/ratelimit/limiter.go over a run of requests, and the
-- wait that a refused client is told.
use store_order.Base.{
  ℕ, ◌+◌, ◌-◌, ◌*◌, ◌≤◌, ◌<◌, String, ◌≡◌, refl, sym, ◌∙◌, ap, subst, Option, none, some, List,
  true, false, ℤ, pos, negsuc, pos_part, length, select, Bool-cases, inl, inr, arith,
}
use store_order.RateLimit.{Redis, below, evicted, sliding_window, retry_after_ms, retry_after_sec}
use store_order.RateLimit.Sets.{
  is_recent, RedisLaws, count, length-select, count_le_length, count_lt_length, count_mono,
  count-select, count_none,
}
use store_order.RateLimit.Window.{
  in_window, recent_at, Run, admitted_entries, refused_entries, entries-evicted, zcard-evicted,
}

below_sound : (n : ℕ) (limit : ℤ) → below n limit ≡ true → n < pos_part limit
below_sound n (pos l) h = ground arith
below_sound n (negsuc l) h = cc

below_complete : (n : ℕ) (limit : ℤ) → below n limit ≡ false → pos_part limit ≤ n
below_complete n (pos l) h = ground arith
below_complete n (negsuc l) h = omega arith

below-true : (n : ℕ) (limit : ℤ) → n < pos_part limit → below n limit ≡ true
below-true n (pos l) h = ground arith
below-true n (negsuc l) h = absurd (omega (arith, h))

module _ (r : Redis) (l : RedisLaws r) (key : String) (window : ℕ) (limit : ℤ) where
  open r use {State}
  open l use {entries}

  -- Every admitted request that is still recent has its entry, now and at any later time.
  abbrev Covers : State → ℕ → List ℕ → Type 0
  Covers s t ts =
      (u : ℕ) → t ≤ u → count (recent_at u window) ts ≤ count (is_recent u window) (entries s key)

  count-evicted :
      (s : State) (now u : ℕ)
      → now ≤ u
      → count (is_recent u window) (select (is_recent now window) (entries s key))
        ≡ count (is_recent u window) (entries s key)
  count-evicted s now u h =
      count-select (is_recent u window) (is_recent now window) (λ e g. ground arith) (entries s key)

  Run-Covers : {s : State} {t : ℕ} {ts : List ℕ} → Run r l key window limit s t ts → Covers s t ts
  Run-Covers (Run.start s t e) u h = omega arith
  Run-Covers (Run.admit {s} {t} {ts} run now member later fresh allowed) u h =
      let (_, counted) = admitted_entries r l key window limit now member s fresh allowed in
      let before = Run-Covers run u (omega arith) in
      let kept = count-evicted s now u h in
      let new = counted (is_recent u window) in ground (arith, before, kept, new)
  Run-Covers (Run.refuse {s} {t} {ts} run now member later refused) u h =
      let (_, same, _) = refused_entries r l key window limit now member s refused in
      let before = Run-Covers run u (omega arith) in
      let kept = count-evicted s now u h in
      subst (λ n. count (recent_at u window) ts ≤ n)
        (sym (
          ap (λ x. count (is_recent u window) (entries x key)) same
          ∙ ap (count (is_recent u window)) (entries-evicted r l key window limit now s)
          ∙ kept))
        before
  Run-Covers (Run.elsewhere {s} {t} {ts} run s' same) u h =
      subst (λ es. count (recent_at u window) ts ≤ count (is_recent u window) es) (sym same)
        (Run-Covers run u h)
  Run-Covers (Run.expire {s} {t} {ts} run s' now later old empty) u h =
      let before = Run-Covers run u (omega arith) in
      let gone : count (is_recent u window) (entries s key) ≡ 0 =
        count_none (is_recent u window) (entries s key) (λ e m. ground (arith, old e m)) in
      omega (arith, before, gone)

  -- However the requests on a key are timed, every window of the rule's length, wherever it ends, has
  -- at most `limit` of the times at which one was admitted.
  pub Run-bounded :
      {s : State} {t : ℕ} {ts : List ℕ}
      → Run r l key window limit s t ts
      → (end : ℕ) → count (in_window end window) ts ≤ pos_part limit
  Run-bounded (Run.start s t e) end = omega arith
  Run-bounded (Run.admit {s} {t} {ts} run now member later fresh allowed) end =
      let (room, _) = admitted_entries r l key window limit now member s fresh allowed in
      let before = Run-bounded run end in
      let recent = Run-Covers run now later in
      let free = below_sound _ limit room in
      elim (Bool-cases (in_window end window now)) [
        | inr out ↦ rw out before
        | inl here ↦
            let among =
              count_mono (in_window end window) (recent_at now window) (λ x g. ground arith) ts in
            rw here (omega (arith, among, recent, free))
      ]
  Run-bounded (Run.refuse run now member later refused) end = Run-bounded run end
  Run-bounded (Run.elsewhere run s' same) end = Run-bounded run end
  Run-bounded (Run.expire run s' now later old empty) end = Run-bounded run end

  retry_after_sec_lem : (ms : ℕ) → ms ≤ 1000 * retry_after_sec ms
  retry_after_sec_lem ms = ground arith

  sliding_window_admits :
      (now : ℕ) (member : String) (s : State)
      → below (count (is_recent now window) (entries s key)) limit ≡ true
      → (sliding_window r key now window limit member s).0.allowed ≡ 1
  unfolding sliding_window
  sliding_window_admits now member s h =
      rw (ap (λ n. below n limit) (zcard-evicted r l key window limit now s) ∙ h) refl

  -- the oldest entry has left its window once the client has waited
  oldest_leaves :
      (now later : ℕ) (s : State)
      → 0 < length (entries s key)
      → now + 1000 * retry_after_sec (retry_after_ms (r.oldest_score key s) now window) ≤ later
      → count (is_recent later window) (entries s key) < length (entries s key)
  oldest_leaves now later s some_entry waited = go (r.oldest_score key s) refl waited
    where
      go :
          (o : Option ℕ)
          → r.oldest_score key s ≡ o
          → now + 1000 * retry_after_sec (retry_after_ms o now window) ≤ later
          → count (is_recent later window) (entries s key) < length (entries s key)
      go none h waited = absurd (omega (arith, some_entry, ap length (l.oldest_score_none key s h)))
      go (some score) h waited =
          let (member, m) = l.oldest_score_some key s score h in
          let covered = retry_after_sec_lem ((score + window) - now) in
          count_lt_length (is_recent later window) (entries s key) m
            (ground (arith, covered, waited))

  -- A client that is refused while the key's set has no more entries than the limit, which is above 0,
  -- is admitted when it asks again, with no request on the key between, at least as many seconds later
  -- as the answer says.
  pub retry_after-admitted :
      (now : ℕ) (member : String) (s : State)
      → 0 < pos_part limit
      → length (entries s key) ≤ pos_part limit
      → (sliding_window r key now window limit member s).0.allowed ≡ 0
      → (later : ℕ) (again : String)
      → now + 1000 * (sliding_window r key now window limit member s).0.retry_after ≤ later
      → (sliding_window r key later window limit again
          (sliding_window r key now window limit member s).1).0.allowed
        ≡ 1
  retry_after-admitted now member s positive within refused later again waited =
      let (full, same, told) = refused_entries r l key window limit now member s refused in
      let s' = evicted r key now window s in
      let left =
        ap length (entries-evicted r l key window limit now s)
        ∙ length-select (is_recent now window) (entries s key) in
      let fits = count_le_length (is_recent now window) (entries s key) in
      let quota = below_complete _ limit full in
      let leaves =
        oldest_leaves now later s' (omega (arith, left, quota, positive))
          (omega (arith, waited, told)) in
      subst (λ x. (sliding_window r key later window limit again x).0.allowed ≡ 1) (sym same)
        (sliding_window_admits later again s'
          (below-true _ limit (omega (arith, leaves, left, fits, within))))

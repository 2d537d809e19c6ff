-- ===== src/RateLimit/Window.antt =====
-- The promises of the sliding window of internal/ratelimit/limiter.go: how many requests it admits,
-- and that a refused client that waits as told is admitted.
use store_order.Base.{
  ℕ, ◌+◌, ◌≤◌, String, ◌≡◌, refl, sym, ◌∙◌, ap, List, [], ◌∷◌, Bool, true, false, ◌&&◌, ltb, leb, ℤ,
  length, select, Memᴰ, Bool-cases, inl, inr, arith, fun_ext,
}
use store_order.RateLimit.{
  Redis, ◌-ℤ◌, below, evicted, sliding_window, retry_after_ms, retry_after_sec,
}
use store_order.RateLimit.Sets.{
  Entry, is_recent, IsMember, RedisLaws, count, length-select, count-insert, at_most-is_recent,
}

-- `x` lies in the window of the length `window` that ends at the time `t`
abbrev pub in_window : ℕ → ℕ → ℕ → Bool
in_window t window x = leb x t && ltb t (x + window)

-- `x` is younger than the window at the time `t`, or after it
abbrev pub recent_at : ℕ → ℕ → ℕ → Bool
recent_at t window x = ltb t (x + window)

module _ (r : Redis) (l : RedisLaws r) (key : String) (window : ℕ) (limit : ℤ) where
  open r use {State}
  open l use {entries}

  -- The runs of the script on a key, from an empty set, in the order of the clock: the state, the
  -- time, and the times of the admitted requests, the last first. Between two of them other keys may
  -- change, and Redis may drop the key once the window of every entry has passed.
  pub data Run : State → ℕ → List ℕ → Type 0 where
    start : (s : State) (t : ℕ) → entries s key ≡ [] → Run s t []
    admit :
        {s : State} {t : ℕ} {ts : List ℕ}
        → Run s t ts
        → (now : ℕ) (member : String) → t ≤ now
        → ¬ IsMember member (entries (evicted r key now window s) key)
        → (sliding_window r key now window limit member s).0.allowed ≡ 1
        → Run (sliding_window r key now window limit member s).1 now (now ∷ ts)
    refuse :
        {s : State} {t : ℕ} {ts : List ℕ}
        → Run s t ts
        → (now : ℕ) (member : String) → t ≤ now
        → (sliding_window r key now window limit member s).0.allowed ≡ 0
        → Run (sliding_window r key now window limit member s).1 now ts
    elsewhere :
        {s : State} {t : ℕ} {ts : List ℕ}
        → Run s t ts
        → (s' : State) → entries s' key ≡ entries s key
        → Run s' t ts
    expire :
        {s : State} {t : ℕ} {ts : List ℕ}
        → Run s t ts
        → (s' : State) (now : ℕ) → t ≤ now
        → ((e : Entry) → Memᴰ e (entries s key) → is_recent now window e ≡ false)
        → entries s' key ≡ []
        → Run s' now ts

  pub entries-evicted :
      (now : ℕ) (s : State)
      → entries (evicted r key now window s) key ≡ select (is_recent now window) (entries s key)
  entries-evicted now s =
      l.zremrangebyscore_keeps key (now -ℤ window) s
      ∙ ap (λ f. select f (entries s key)) (fun_ext (at_most-is_recent now window))

  -- the number of entries that the script counts
  pub zcard-evicted :
      (now : ℕ) (s : State)
      → r.zcard key (evicted r key now window s) ≡ count (is_recent now window) (entries s key)
  zcard-evicted now s =
      l.zcard_counts key _ ∙ ap length (entries-evicted now s) ∙ length-select _ (entries s key)

  -- What the script does to the set, on either branch.
  pub admitted_entries :
      (now : ℕ) (member : String) (s : State)
      → ¬ IsMember member (entries (evicted r key now window s) key)
      → (sliding_window r key now window limit member s).0.allowed ≡ 1
      → (below (count (is_recent now window) (entries s key)) limit ≡ true)
        × ((f : Entry → Bool)
            → count f (entries (sliding_window r key now window limit member s).1 key)
              ≡ count f ((now, member) ∷ select (is_recent now window) (entries s key)))
  unfolding sliding_window
  admitted_entries now member s fresh h =
      elim (Bool-cases (below (r.zcard key (evicted r key now window s)) limit)) [
        | inr e ↦ absurd (ground arith)
        | inl e ↦
            let s' = evicted r key now window s in
            let (before, after, old, new) = l.zadd_inserts key now member s' fresh in
            (
              ap (λ n. below n limit) (sym (zcard-evicted now s)) ∙ e,
              λ f. rw e (
                  ap (count f) (l.pexpire_keeps key window (r.zadd key now member s') ∙ new)
                  ∙ count-insert f before after (now, member)
                  ∙ ap (λ es. count f ((now, member) ∷ es)) (sym old ∙ entries-evicted now s)),
            )
      ]

  pub refused_entries :
      (now : ℕ) (member : String) (s : State)
      → (sliding_window r key now window limit member s).0.allowed ≡ 0
      → (below (count (is_recent now window) (entries s key)) limit ≡ false)
        × ((sliding_window r key now window limit member s).1 ≡ evicted r key now window s)
        × ((sliding_window r key now window limit member s).0.retry_after
            ≡ retry_after_sec
                (retry_after_ms (r.oldest_score key (evicted r key now window s)) now window))
  unfolding sliding_window
  refused_entries now member s h =
      elim (Bool-cases (below (r.zcard key (evicted r key now window s)) limit)) [
        | inl e ↦ absurd (ground arith)
        | inr e ↦ (ap (λ n. below n limit) (sym (zcard-evicted now s)) ∙ e, rw e refl, rw e refl)
      ]

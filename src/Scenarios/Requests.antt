-- ===== src/Scenarios/Requests.antt =====
-- internal/ratelimit/limiter.go on a Redis in memory that keeps the entries of each key.
use Prim.Native.Nat.{◌/◌}
use store_order.Base.{
  ℕ, ◌≤◌, String, ◌≡◌, refl, Option, none, some, List, [], ◌∷◌, ◌++◌, Bool, true, not, ◌==◌, select,
  if◌then◌else◌, ℤ, pos, length, Memᴰ, Action, ok, arith, ◌<>◌, sym, append-nil,
}
use store_order.RateLimit.{Redis, RedisLimiter, sliding_window, allow, Decoded, array, integer}
use store_order.RateLimit.Sets.{RedisLaws, Entry, at_most, count}
use store_order.RateLimit.Window.{Run, in_window}
use store_order.RateLimit.Bounds.{Run-bounded, retry_after-admitted}
use store_order.RateLimit.Availability.{allow_refuses, Answers}
use store_order.Scenarios.Fixtures.{surroundings}
use text.Mathlib.TextPositions.{eq_refl}

abbrev Sets : Type 0
Sets = String → List Entry

abbrev write : String → List Entry → Sets → Sets
write key es s k = if key == k then es else s k

abbrev first_score : List Entry → Option ℕ
first_score [] = none
first_score (e ∷ es) = some e.0

-- the new entry comes last
abbrev redis : Redis
redis = record {
  State = Sets;
  zremrangebyscore = λ key bound s. write key (select (λ e. not (at_most bound e)) (s key)) s;
  zcard = λ key s. length (s key);
  zadd = λ key score member s. write key (s key ++ (score, member) ∷ []) s;
  pexpire = λ key window s. s;
  oldest_score = λ key s. first_score (s key);
}

write_same : (key : String) (es : List Entry) (s : Sets) → write key es s key ≡ es
write_same key es s = rw (eq_refl key) refl

append-nil_entries : (es : List Entry) → es ≡ es ++ []
append-nil_entries es = sym (append-nil es)

first_score-none : (es : List Entry) → first_score es ≡ none → es ≡ []
first_score-none [] h = refl
first_score-none (e ∷ es) h = cc

first_score-some :
    (es : List Entry) (score : ℕ)
    → first_score es ≡ some score
    → (member : String) × Memᴰ (score, member) es
first_score-some [] score h = cc
first_score-some ((t, m) ∷ es) score h = (m, Memᴰ.head cc)

abbrev redis_laws : RedisLaws redis
redis_laws = record {
  entries = λ s key. s key;
  zremrangebyscore_keeps = λ key bound s. write_same key _ s;
  zcard_counts = λ key s. refl;
  zadd_inserts =
      λ key score member s new. (s key, [], append-nil_entries (s key), write_same key _ s);
  pexpire_keeps = λ key window s. refl;
  oldest_score_none = λ key s. first_score-none (s key);
  oldest_score_some = λ key s score. first_score-some (s key) score;
}

-- One request at the time 3 under a limit of 1 in 5000 milliseconds, and a second at the time 9.
abbrev nothing : Sets
nothing key = []

abbrev once : Sets
once = (sliding_window redis "k" 3 5000 (pos 1) "a" nothing).1

abbrev twice : Sets
twice = (sliding_window redis "k" 9 5000 (pos 1) "b" once).1

twice_runs : Run redis redis_laws "k" 5000 (pos 1) twice 9 (3 ∷ [])
unfolding sliding_window
twice_runs =
    Run.refuse (Run.admit (Run.start nothing 0 refl) 3 "a" (omega arith) (λ m. elim m.1 [ ]) refl) 9
      "b" (omega arith) refl

Run-bounded_example : count (in_window 9 5000) (3 ∷ []) ≤ 1
Run-bounded_example =
    Run-bounded redis redis_laws "k" 5000 (pos 1) {s = twice} {t = 9} {ts = 3 ∷ []} twice_runs 9

retry_after-admitted_example :
    (sliding_window redis "k" 5009 5000
      (pos 1)
      "c"
      (sliding_window redis "k" 9 5000 (pos 1) "b" once).1).0.allowed
    ≡ 1
unfolding sliding_window
retry_after-admitted_example =
    retry_after-admitted redis redis_laws "k" 5000 (pos 1) 9 "b" once (omega arith) (omega arith)
      refl 5009 "c" (omega arith)

-- A server that has no room for anyone.
abbrev busy : RedisLimiter (Unit {0})
busy = record {
  enabled = true;
  run_script = some (λ key now window limit member s.
      (ok (array (integer (pos 0) ∷ integer (pos 0) ∷ integer (pos 7) ∷ [])), s));
}

allow_refuses_example :
    (run : String → ℕ → ℕ → ℤ → String → Action (Unit {0}) Decoded) × (busy.run_script ≡ some run)
    × (◌≡◌ {A = Bool} true true)
    × Answers
        (pos 5)
        (run "k" 3 (60_000_000_000 / 1_000_000) (pos 5) ("1" <> "-" <> "u") tt).0
        (allow surroundings busy 3 "u" "k" (pos 5) 60_000_000_000 tt).0
unfolding allow
allow_refuses_example = allow_refuses surroundings busy 3 "u" "k" (pos 5) 60_000_000_000 tt refl

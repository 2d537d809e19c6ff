-- ===== src/RateLimit/Availability.antt =====
-- When Allow of internal/ratelimit/limiter.go turns a request away.
use Prim.Native.Nat.{◌/◌}
use store_order.Base.{
  ℕ, String, ◌≡◌, refl, sym, ◌∙◌, subst, ap, Option, none, some, List, [], ◌∷◌, true, false, ℤ, pos,
  Action, Result, ok, err, ◌<>◌, arith, Bool-cases, inl, inr,
}
use store_order.Runtime.{Runtime}
use store_order.RateLimit.{
  RedisLimiter, LimitResult, Element, Decoded, array, scalar, int64_of, is_one, result_of, allow,
}

-- What the limiter says is what Redis answered: the three numbers of the script.
abbrev pub Answers : ℤ → Result Decoded → LimitResult → Type 0
Answers limit answer res =
    (allowed remaining retry_after : Element) × (rest : List Element) × (answer
      ≡ ok (array (allowed ∷ remaining ∷ retry_after ∷ rest)))
    × (res.allowed ≡ is_one (int64_of allowed))
    × (res.remaining ≡ int64_of remaining)
    × (res.retry_after_sec ≡ int64_of retry_after)

result_of-Answers :
    (limit : ℤ) (answer : Result Decoded)
    → (result_of limit answer).allowed ≡ false
    → Answers limit answer (result_of limit answer)
result_of-Answers limit (ok (array (a ∷ b ∷ c ∷ rest))) h = (a, b, c, rest, refl, refl, refl, refl)
result_of-Answers limit (ok (array [])) h = cc
result_of-Answers limit (ok (array (a ∷ []))) h = cc
result_of-Answers limit (ok (array (a ∷ b ∷ []))) h = cc
result_of-Answers limit (ok scalar) h = cc
result_of-Answers limit (err e) h = cc

module _ {S : Type 0} (rt : Runtime) (limiter : RedisLimiter S) (now_ms : ℕ) (uuid key : String)
    (limit : ℤ) (window : ℕ) (s : S) where
  -- A request is turned away only by an answer of Redis: the limiter has a client and is enabled, the
  -- script ran without an error for the key, with the window in milliseconds, and returned at least
  -- three elements of which the first is not 1; the limiter's result has their numbers. A disabled
  -- limiter, an unreachable server and an answer of another form all let the request pass.
  pub allow_refuses :
      (allow rt limiter now_ms uuid key limit window s).0.allowed ≡ false
      → (run : String → ℕ → ℕ → ℤ → String → Action S Decoded) × (limiter.run_script ≡ some run)
        × (limiter.enabled ≡ true)
        × Answers limit
            (run key now_ms (window / 1_000_000) limit (rt.decimal (pos now_ms) <> "-" <> uuid) s).0
            (allow rt limiter now_ms uuid key limit window s).0
  unfolding allow
  allow_refuses h = go limiter.run_script refl
    where
      go :
          (o : Option (String → ℕ → ℕ → ℤ → String → Action S Decoded))
          → limiter.run_script ≡ o
          → (run : String → ℕ → ℕ → ℤ → String → Action S Decoded) × (limiter.run_script ≡ some run)
            × (limiter.enabled ≡ true)
            × Answers limit
                (run key now_ms
                  (window / 1_000_000)
                  limit
                  (rt.decimal (pos now_ms) <> "-" <> uuid)
                  s).0
                (allow rt limiter now_ms uuid key limit window s).0
      go none e = absurd (ground arith)
      go (some run) e = elim (Bool-cases limiter.enabled) [
        | inr off ↦ absurd (ground arith)
        | inl on ↦
            let answer =
              (run key now_ms (window / 1_000_000) limit (rt.decimal (pos now_ms) <> "-" <> uuid)
                s).0 in
            let same : (allow rt limiter now_ms uuid key limit window s).0
                ≡ result_of limit answer =
              rw (e, on, allow) refl in
            (
              run,
              e,
              on,
              subst (Answers limit answer) (sym same) (
                  result_of-Answers limit answer
                    (sym (ap (λ (x : LimitResult). x.allowed) same) ∙ h)),
            )
      ]

-- ===== src/RateLimit/Sets.antt =====
-- What is documented of Redis's sorted sets, and the counting of their entries.
use store_order.Base.{
  ℕ, suc, ◌+◌, ◌≤◌, ◌<◌, String, ◌≡◌, refl, ap, none, some, List, [], ◌∷◌, ◌++◌, Bool, true, false,
  not, ltb, leb, if◌then◌else◌, ℤ, pos, negsuc, length, select, Memᴰ, Bool-cases, inl, inr, arith,
}
use store_order.RateLimit.{Redis, ◌-ℤ◌}

abbrev pub Entry : Type 0
Entry = ℕ × String

-- a score is at most a bound
abbrev pub at_most : ℤ → Entry → Bool
at_most (pos n) e = leb e.0 n
at_most (negsuc _) e = false

-- the entry is younger than the window at the time `now`
abbrev pub is_recent : ℕ → ℕ → Entry → Bool
is_recent now window e = ltb now (e.0 + window)

abbrev pub IsMember : String → List Entry → Type 0
IsMember m es = (e : Entry) × Memᴰ e es × (e.1 ≡ m)

pub record RedisLaws (r : Redis) : Type 0 where
  -- the entries that a key's set has
  pub entries : r.State → String → List Entry
  pub zremrangebyscore_keeps :
      (key : String) (bound : ℤ) (s : r.State)
      → entries (r.zremrangebyscore key bound s) key
        ≡ select (λ e. not (at_most bound e)) (entries s key)
  pub zcard_counts : (key : String) (s : r.State) → r.zcard key s ≡ length (entries s key)
  -- a member that the set does not have is put somewhere among the others
  pub zadd_inserts :
      (key : String) (score : ℕ) (member : String) (s : r.State)
      → ¬ IsMember member (entries s key)
      → (before after : List Entry) × (entries s key ≡ before ++ after)
        × (entries (r.zadd key score member s) key ≡ before ++ (score, member) ∷ after)
  pub pexpire_keeps :
      (key : String) (window : ℕ) (s : r.State)
      → entries (r.pexpire key window s) key ≡ entries s key
  pub oldest_score_none :
      (key : String) (s : r.State) → r.oldest_score key s ≡ none → entries s key ≡ []
  pub oldest_score_some :
      (key : String) (s : r.State) (score : ℕ)
      → r.oldest_score key s ≡ some score
      → (member : String) × Memᴰ (score, member) (entries s key)

module _ {A : Type 0} where
  -- the number of elements that pass a test
  abbrev pub count : (A → Bool) → List A → ℕ
  count f [] = 0
  count f (x ∷ xs) = let rest = count f xs in if f x then suc rest else rest

  pub length-select : (f : A → Bool) (xs : List A) → length (select f xs) ≡ count f xs
  length-select f [] = refl
  length-select f (x ∷ xs) = elim (Bool-cases (f x)) [
    | inl h ↦ rw h (ap suc (length-select f xs))
    | inr h ↦ rw h (length-select f xs)
  ]

  pub count_le_length : (f : A → Bool) (xs : List A) → count f xs ≤ length xs
  count_le_length f [] = omega arith
  count_le_length f (x ∷ xs) = ground (arith, count_le_length f xs)

  -- a list with an element that fails the test has more elements than pass it
  pub count_lt_length :
      (f : A → Bool) (xs : List A) {x : A} → Memᴰ x xs → f x ≡ false → count f xs < length xs
  count_lt_length f [] m h = elim m [ ]
  count_lt_length f (x ∷ xs) (Memᴰ.head same) h = ground (arith, count_le_length f xs, ap f same)
  count_lt_length f (x ∷ xs) (Memᴰ.tail m) h = ground (arith, count_lt_length f xs m h)

  pub count_mono :
      (f g : A → Bool)
      → ((x : A) → f x ≡ true → g x ≡ true)
      → (xs : List A) → count f xs ≤ count g xs
  count_mono f g h [] = omega arith
  count_mono f g h (x ∷ xs) = ground (arith, count_mono f g h xs, h x)

  pub count-select :
      (f g : A → Bool)
      → ((x : A) → f x ≡ true → g x ≡ true)
      → (xs : List A) → count f (select g xs) ≡ count f xs
  count-select f g h [] = refl
  count-select f g h (x ∷ xs) = elim (Bool-cases (g x)) [
    | inl e ↦ rw e (ground (arith, count-select f g h xs))
    | inr e ↦ rw e (ground (arith, count-select f g h xs, h x))
  ]

  pub count-insert :
      (f : A → Bool) (before after : List A) (x : A)
      → count f (before ++ x ∷ after) ≡ count f (x ∷ before ++ after)
  count-insert f [] after x = refl
  count-insert f (y ∷ before) after x = ground (arith, count-insert f before after x)

  pub count_none :
      (f : A → Bool) (xs : List A) → ((x : A) → Memᴰ x xs → f x ≡ false) → count f xs ≡ 0
  count_none f [] h = refl
  count_none f (x ∷ xs) h =
      ground (arith, h x (Memᴰ.head refl), count_none f xs (λ y m. h y (Memᴰ.tail m)))

-- What the script evicts is what has left the window.
pub at_most-is_recent :
    (now window : ℕ) (e : Entry) → not (at_most (now -ℤ window) e) ≡ is_recent now window e
at_most-is_recent now window e = ground arith

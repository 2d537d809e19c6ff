-- ===== src/Base/Lists.antt =====
-- Lists over the native numbers, and Go's maps with text keys as association lists.
use Prim.Native.Nat.{◌<◌, ℕ, zero, suc, ◌≤◌}
use Prim.Native.String.{String}
use mathlib.Core.Bool.{Bool, true, false}
use mathlib.Core.Logic.{inl, inr}
use mathlib.Core.Option.{Option, none, some}
use mathlib.Core.List.{List, [], ◌∷◌, map, Memᴰ}
use mathlib.Core.Path.{◌≡◌, refl, sym, ◌∙◌, ap, subst}
use native.Mathlib.Omega.{arith}
use text.Mathlib.Text.{◌==◌}
use text.Mathlib.TextEquality.{eq_iff}
use store_order.Base.Text.{if◌then◌else◌, Bool-cases}

module _ {ℓ} {A : Type ℓ} where
  abbrev pub length : List A → ℕ
  length [] = 0
  length (x ∷ xs) = suc (length xs)

module _ {A : Type 0} where
  abbrev pub take : ℕ → List A → List A
  take zero xs = []
  take (suc n) [] = []
  take (suc n) (x ∷ xs) = x ∷ take n xs

  abbrev pub drop : ℕ → List A → List A
  drop zero xs = xs
  drop (suc n) [] = []
  drop (suc n) (x ∷ xs) = drop n xs

  pub Memᴰ-take : (n : ℕ) (xs : List A) {a : A} → Memᴰ a (take n xs) → Memᴰ a xs
  Memᴰ-take zero xs m = elim m [ ]
  Memᴰ-take (suc n) [] m = m
  Memᴰ-take (suc n) (x ∷ xs) (Memᴰ.head e) = Memᴰ.head e
  Memᴰ-take (suc n) (x ∷ xs) (Memᴰ.tail m) = Memᴰ.tail (Memᴰ-take n xs m)

  pub Memᴰ-drop : (n : ℕ) (xs : List A) {a : A} → Memᴰ a (drop n xs) → Memᴰ a xs
  Memᴰ-drop zero xs m = m
  Memᴰ-drop (suc n) [] m = m
  Memᴰ-drop (suc n) (x ∷ xs) m = Memᴰ.tail (Memᴰ-drop n xs m)

  pub length-take : (n : ℕ) (xs : List A) → length (take n xs) ≤ n
  length-take zero xs = omega arith
  length-take (suc n) [] = omega arith
  length-take (suc n) (x ∷ xs) = omega (arith, length-take n xs)

  -- a list that is not cut off
  pub take_short : (n : ℕ) (xs : List A) → length (take n xs) < n → take n xs ≡ xs
  take_short zero xs h = absurd (omega (arith, h))
  take_short (suc n) [] h = refl
  take_short (suc n) (x ∷ xs) h = ap (λ ys. x ∷ ys) (take_short n xs (omega (arith, h)))

-- `for … { if p(x) { xs = append(xs, x) } }`
abbrev pub select {ℓ} : {A : Type ℓ} → (A → Bool) → List A → List A
select p [] = []
select p (x ∷ xs) = let rest = select p xs in if p x then x ∷ rest else rest

module _ {A : Type 0} (p : A → Bool) where
  select-cons_pos : (x : A) (xs : List A) → p x ≡ true → select p (x ∷ xs) ≡ x ∷ select p xs
  select-cons_pos x xs e = rw e refl

  select-cons_neg : (x : A) (xs : List A) → p x ≡ false → select p (x ∷ xs) ≡ select p xs
  select-cons_neg x xs e = rw e refl

  Memᴰ-select_pos :
      (x : A) (xs : List A) {a : A}
      → p x ≡ true
      → ((m : Memᴰ a (select p xs)) → Memᴰ a xs × (p a ≡ true))
      → Memᴰ a (x ∷ select p xs)
      → Memᴰ a (x ∷ xs) × (p a ≡ true)
  Memᴰ-select_pos x xs e ih (Memᴰ.head same) = (Memᴰ.head same, ap p same ∙ e)
  Memᴰ-select_pos x xs e ih (Memᴰ.tail m) = let (n, h) = ih m in (Memᴰ.tail n, h)

  -- What is selected is in the list and passes the test.
  pub Memᴰ-select : (xs : List A) {a : A} → Memᴰ a (select p xs) → Memᴰ a xs × (p a ≡ true)
  Memᴰ-select [] m = elim m [ ]
  Memᴰ-select (x ∷ xs) {a} m = elim (Bool-cases (p x)) [
    | inl e ↦ Memᴰ-select_pos x xs e (Memᴰ-select xs) (subst (Memᴰ a) (select-cons_pos x xs e) m)
    | inr e ↦
        let (n, h) = Memᴰ-select xs (subst (Memᴰ a) (select-cons_neg x xs e) m) in (Memᴰ.tail n, h)
  ]

  -- What is in the list and passes the test is selected.
  pub select-Memᴰ : (xs : List A) {a : A} → Memᴰ a xs → p a ≡ true → Memᴰ a (select p xs)
  select-Memᴰ [] m h = m
  select-Memᴰ (x ∷ xs) {a} (Memᴰ.head same) h =
      subst (Memᴰ a) (sym (select-cons_pos x xs (ap p (sym same) ∙ h))) (Memᴰ.head same)
  select-Memᴰ (x ∷ xs) {a} (Memᴰ.tail m) h = elim (Bool-cases (p x)) [
    | inl e ↦ subst (Memᴰ a) (sym (select-cons_pos x xs e)) (Memᴰ.tail (select-Memᴰ xs m h))
    | inr e ↦ subst (Memᴰ a) (sym (select-cons_neg x xs e)) (select-Memᴰ xs m h)
  ]

module _ {A B : Type 0} (f : A → B) where
  pub Memᴰ-map : (xs : List A) {b : B} → Memᴰ b (map f xs) → (a : A) × Memᴰ a xs × (b ≡ f a)
  Memᴰ-map [] m = elim m [ ]
  Memᴰ-map (x ∷ xs) (Memᴰ.head same) = (x, Memᴰ.head refl, same)
  Memᴰ-map (x ∷ xs) (Memᴰ.tail m) = let (a, n, e) = Memᴰ-map xs m in (a, Memᴰ.tail n, e)

  pub map-Memᴰ : (xs : List A) {a : A} → Memᴰ a xs → Memᴰ (f a) (map f xs)
  map-Memᴰ [] m = elim m [ ]
  map-Memᴰ (x ∷ xs) (Memᴰ.head same) = Memᴰ.head (ap f same)
  map-Memᴰ (x ∷ xs) (Memᴰ.tail m) = Memᴰ.tail (map-Memᴰ xs m)

  pub length-map : (xs : List A) → length (map f xs) ≡ length xs
  length-map [] = refl
  length-map (x ∷ xs) = ap suc (length-map xs)

module _ {ℓ} {V : Type ℓ} where
  -- `v, ok := m[k]`
  unfoldable pub lookup : String → List (String × V) → Option V
  lookup k [] = none
  lookup k ((j, v) ∷ m) = if j == k then some v else lookup k m

  -- `m[k] = v`
  unfoldable pub put : String → V → List (String × V) → List (String × V)
  put k v [] = (k, v) ∷ []
  put k v ((j, w) ∷ m) = let rest = put k v m in if j == k then (k, v) ∷ m else (j, w) ∷ rest

  pub lookup-put :
      (k j : String) (v : V) (m : List (String × V))
      → lookup j (put k v m) ≡ (if k == j then some v else lookup j m)
  unfolding lookup put
  lookup-put k j v [] = refl
  lookup-put k j v ((i, w) ∷ m) =
      ground (arith, eq_iff k j, eq_iff i k, eq_iff i j, lookup-put k j v m)

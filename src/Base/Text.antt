-- ===== src/Base/Text.antt =====
-- Go's `strings` functions on code points: `TrimSpace` with the white space of package unicode,
-- `ToLower` and `ToUpper` exact on ASCII and, beyond it, through a table that is handed in.
use text.Mathlib.TextLemmas.{cons-append}
use Prim.Native.Nat.{ℕ, zero, suc, ◌-◌, compare, Ordering}
use Prim.Native.Char.{Char, code}
use Prim.Native.String
use Prim.Native.String.{String, [], ◌∷◌}
use mathlib.Core.Path.{◌≡◌, refl, ap}
use mathlib.Core.Bool.{Bool, true, false, ◌&&◌, ◌||◌}
use mathlib.Core.Logic.{◌⊎◌, inl, inr}
use mathlib.Core.Option.{none, some}
use text.Mathlib.Text.{find?}

abbrev pub ltb : ℕ → ℕ → Bool
ltb a b = elim (compare a b) [ Ordering.lt ↦ true | _ ↦ false ]

abbrev pub leb : ℕ → ℕ → Bool
leb a b = elim (compare a b) [ Ordering.gt ↦ false | _ ↦ true ]

abbrev pub nat_eq : ℕ → ℕ → Bool
nat_eq a b = elim (compare a b) [ Ordering.eq ↦ true | _ ↦ false ]

infix 1 if◌then◌else◌
abbrev pub if◌then◌else◌ {ℓ} : {A : Type ℓ} → Bool → A → A → A
if true then x else y = x
if false then x else y = y

pub Bool-cases : (b : Bool) → (b ≡ true) ⊎ (b ≡ false)
Bool-cases true = inl refl
Bool-cases false = inr refl

-- `s != ""` and `s == ""`
abbrev pub is_empty : String → Bool
is_empty [] = true
is_empty (c ∷ s) = false

-- `a + b` on texts
infixr 60 ◌<>◌
abbrev pub ◌<>◌ : String → String → String
a <> b = String.◌++◌ a b

pub is_empty-prefixed : (s t : String) → is_empty s ≡ false → is_empty (s <> t) ≡ false
is_empty-prefixed [] t h = absurd (cc)
is_empty-prefixed (c ∷ s) t h = ap is_empty (cons-append c s t)

-- unicode.IsSpace
is_space : Char → Bool
is_space c =
    let n = code c in
    (leb 9 n && leb n 13)
    || nat_eq n 32
    || nat_eq n 0x85
    || nat_eq n 0xA0
    || nat_eq n 0x1680
    || (leb 0x2000 n && leb n 0x200a)
    || nat_eq n 0x2028
    || nat_eq n 0x2029
    || nat_eq n 0x202f
    || nat_eq n 0x205f
    || nat_eq n 0x3000

trim_left : String → String
trim_left [] = []
trim_left (c ∷ s) = let rest = trim_left s in if is_space c then rest else c ∷ s

abbrev keep : Bool → Char → String → String
keep true c [] = []
keep _ c s = c ∷ s

trim_right : String → String
trim_right [] = []
trim_right (c ∷ s) = keep (is_space c) c (trim_right s)

-- strings.TrimSpace
unfoldable pub trim_space : String → String
unfolding trim_left trim_right is_space
trim_space s = trim_right (trim_left s)

nth : String → ℕ → Char → Char
nth [] n d = d
nth (c ∷ s) zero d = c
nth (c ∷ s) (suc n) d = nth s n d

lower_char : (Char → Char) → Char → Char
lower_char beyond c =
    let n = code c in
    if leb b'A' n && leb n b'Z'
    then nth "abcdefghijklmnopqrstuvwxyz" (n - b'A') c
    else if ltb n 128
    then c
    else beyond c

upper_char : (Char → Char) → Char → Char
upper_char beyond c =
    let n = code c in
    if leb b'a' n && leb n b'z'
    then nth "ABCDEFGHIJKLMNOPQRSTUVWXYZ" (n - b'a') c
    else if ltb n 128
    then c
    else beyond c

map_chars : (Char → Char) → String → String
map_chars f [] = []
map_chars f (c ∷ s) = f c ∷ map_chars f s

-- strings.ToLower
unfoldable pub to_lower : (Char → Char) → String → String
unfolding lower_char map_chars nth
to_lower beyond = map_chars (lower_char beyond)

-- strings.ToUpper
unfoldable pub to_upper : (Char → Char) → String → String
unfolding upper_char map_chars nth
to_upper beyond = map_chars (upper_char beyond)

-- strings.Contains
unfoldable pub contains : String → String → Bool
contains s t = elim (find? s t) [ none ↦ false | some _ ↦ true ]

-- What a text without leading white space looks like.
abbrev StartsPlain : String → Type 0
StartsPlain [] = Unit
StartsPlain (c ∷ s) = is_space c ≡ false

trim_left-StartsPlain : (s : String) → StartsPlain (trim_left s)
unfolding trim_left
trim_left-StartsPlain [] = tt
trim_left-StartsPlain (c ∷ s) = elim (Bool-cases (is_space c)) [
  | inl h ↦ rw h (trim_left-StartsPlain s)
  | inr h ↦ rw h h
]

trim_left_of_StartsPlain : (s : String) → StartsPlain s → trim_left s ≡ s
unfolding trim_left
trim_left_of_StartsPlain [] h = refl
trim_left_of_StartsPlain (c ∷ s) h = rw h

trim_right-StartsPlain : (s : String) → StartsPlain s → StartsPlain (trim_right s)
unfolding trim_right
trim_right-StartsPlain [] h = tt
trim_right-StartsPlain (c ∷ s) h = rw (h, keep) h

trim_right-keep :
    (c : Char) (t : String)
    → trim_right t ≡ t
    → trim_right (keep (is_space c) c t) ≡ keep (is_space c) c t
unfolding trim_right
trim_right-keep c [] h = elim (Bool-cases (is_space c)) [ inl e ↦ rw e | inr e ↦ rw e (rw e) ]
trim_right-keep c (d ∷ t) h = elim (Bool-cases (is_space c)) [
  | inl e ↦ rw e (rw (e, h))
  | inr e ↦ rw e (rw (e, h))
]

trim_right-trim_right : (s : String) → trim_right (trim_right s) ≡ trim_right s
unfolding trim_right
trim_right-trim_right [] = refl
trim_right-trim_right (c ∷ s) = trim_right-keep c (trim_right s) (trim_right-trim_right s)

-- Trimming a second time changes nothing.
pub trim_space-trim_space : (s : String) → trim_space (trim_space s) ≡ trim_space s
unfolding trim_space
trim_space-trim_space s =
    rw (trim_left_of_StartsPlain _ (trim_right-StartsPlain _ (trim_left-StartsPlain s)))
      (trim_right-trim_right (trim_left s))

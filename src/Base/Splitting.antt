-- ===== src/Base/Splitting.antt =====
-- Go's `strings.Split` at a separator of one character, and `strings.TrimRight` with a cutset of one
-- character.
use Prim.Native.Char.{Char}
use Prim.Native.Char.{code}
use Prim.Native.String.{String, [], ◌∷◌}
use mathlib.Core.List.{List}
use mathlib.Core.Path.{◌≡◌}
use mathlib.Core.Bool.{Bool, true, false}
use mathlib.Core.Logic.{inl, inr}
use store_order.Base.Text.{nat_eq, if◌then◌else◌, Bool-cases}

-- one more character in front of the first part
abbrev extend : Char → List String → List String
extend c List.[] = List.◌∷◌ (c ∷ []) List.[]
extend c (List.◌∷◌ s rest) = List.◌∷◌ (c ∷ s) rest

-- strings.Split(s, sep)
unfoldable pub split : Char → String → List String
split sep [] = List.◌∷◌ [] List.[]
split sep (c ∷ s) =
    let rest = split sep s in if nat_eq (code c) (code sep) then List.◌∷◌ [] rest else extend c rest

abbrev drop_last : Bool → Char → String → String
drop_last true c [] = []
drop_last _ c s = c ∷ s

-- strings.TrimRight(s, cut)
unfoldable pub trim_right_of : Char → String → String
trim_right_of cut [] = []
trim_right_of cut (c ∷ s) = drop_last (nat_eq (code c) (code cut)) c (trim_right_of cut s)

-- The last character of a text is not this one.
abbrev pub EndsOtherwise : Char → String → Type 0
EndsOtherwise cut [] = Unit
EndsOtherwise cut (c ∷ []) = nat_eq (code c) (code cut) ≡ false
EndsOtherwise cut (c ∷ d ∷ s) = EndsOtherwise cut (d ∷ s)

drop_last-EndsOtherwise :
    (cut c : Char) (t : String)
    → EndsOtherwise cut t
    → EndsOtherwise cut (drop_last (nat_eq (code c) (code cut)) c t)
drop_last-EndsOtherwise cut c [] h = elim (Bool-cases (nat_eq (code c) (code cut))) [
  | inl e ↦ rw e tt
  | inr e ↦ rw e e
]
drop_last-EndsOtherwise cut c (d ∷ t) h = elim (Bool-cases (nat_eq (code c) (code cut))) [
  | inl e ↦ rw e h
  | inr e ↦ rw e h
]

-- What is left after the cut does not end with the character.
pub trim_right_of-EndsOtherwise :
    (cut : Char) (s : String) → EndsOtherwise cut (trim_right_of cut s)
unfolding trim_right_of
trim_right_of-EndsOtherwise cut [] = tt
trim_right_of-EndsOtherwise cut (c ∷ s) =
    drop_last-EndsOtherwise cut c (trim_right_of cut s) (trim_right_of-EndsOtherwise cut s)

-- ===== src/Prelude/Text/Trim.antt =====
-- strings.TrimSpace leaves a text without spaces as it is.
use mathlib.Core.List.{reverse-cons, reverse-reverse}
use mathlib.Core.Path.{◌≡◌, refl}
use mathlib.Core.Bool.{false}
use mathlib.Core.List.{[], ◌∷◌, ◌++◌, reverse}
use mmo.Prelude.Lists.{All}
use mmo.Prelude.Text.{Text, is_space, trim_left, trim_space}

abbrev pub HasNoSpace : Text → Type 0
HasNoSpace = All (λ c. is_space c ≡ false)

pub HasNoSpace-append : (s t : Text) → HasNoSpace s → HasNoSpace t → HasNoSpace (s ++ t)
HasNoSpace-append [] t hs ht = ht
HasNoSpace-append (c ∷ s) t hs ht = (hs.0, HasNoSpace-append s t hs.1 ht)

HasNoSpace-reverse : (s : Text) → HasNoSpace s → HasNoSpace (reverse s)
HasNoSpace-reverse [] h = tt
HasNoSpace-reverse (c ∷ s) h =
    rw reverse-cons (HasNoSpace-append (reverse s) (c ∷ []) (HasNoSpace-reverse s h.1) (h.0, tt))

trim_left-HasNoSpace : (s : Text) → HasNoSpace s → trim_left s ≡ s
unfolding trim_left
trim_left-HasNoSpace [] h = refl
trim_left-HasNoSpace (c ∷ s) h = rw h.0

pub trim_space-HasNoSpace : (s : Text) → HasNoSpace s → trim_space s ≡ s
unfolding trim_space
trim_space-HasNoSpace s h =
    rw (trim_left-HasNoSpace s h)
      (rw (trim_left-HasNoSpace (reverse s) (HasNoSpace-reverse s h)) (reverse-reverse s))

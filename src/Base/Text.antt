-- ===== src/Base/Text.antt =====
-- A text is the list of its bytes.
use distributed_instant_mess.Base.Tests.{◌==◌, ==_iff, Bool-cases}
use Prim.Native.Nat.{ℕ}
use mathlib.Core.Path.{◌≡◌, refl}
use mathlib.Core.Logic.{inl, inr}
use mathlib.Core.Bool.{Bool, true, false, ◌&&◌}
use mathlib.Core.List.{List, [], ◌∷◌}
use native.Mathlib.Omega.{arith}

abbrev pub Text : Type 0
Text = List ℕ

unfoldable pub text_eq : Text → Text → Bool
text_eq [] [] = true
text_eq [] (d ∷ t) = false
text_eq (c ∷ s) [] = false
text_eq (c ∷ s) (d ∷ t) = (c == d) && text_eq s t

pub text_eq_refl : (s : Text) → text_eq s s ≡ true
unfolding text_eq
text_eq_refl [] = refl
text_eq_refl (c ∷ s) = ground (arith, text_eq_refl s)

cons-eq : {c d : ℕ} {s t : Text} → c ≡ d → s ≡ t → ◌≡◌ {A = Text} (c ∷ s) (d ∷ t)
cons-eq {c} {d} {s} {t} e f = rw (e, f) refl

pub text_eq_sound : (s t : Text) → text_eq s t ≡ true → s ≡ t
unfolding text_eq
text_eq_sound [] [] h = refl
text_eq_sound [] (d ∷ t) h = absurd (ground (arith, h))
text_eq_sound (c ∷ s) [] h = absurd (ground (arith, h))
text_eq_sound (c ∷ s) (d ∷ t) h = elim (Bool-cases (c == d)) [
  | inl e ↦ cons-eq ((==_iff c d).0 e) (text_eq_sound s t (rw e at h))
  | inr e ↦ absurd (ground (arith, rw e at h))
]

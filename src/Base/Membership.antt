-- ===== src/Base/Membership.antt =====
-- What it means that a test holds of some member of a list.
use mathlib.Core.Path.{◌≡◌, refl, sym, ◌∙◌, ap}
use mathlib.Core.Logic.{◌⊎◌, inl, inr}
use mathlib.Core.Bool.{Bool, true, false, ◌||◌}
use mathlib.Core.List.{List, [], ◌∷◌, ◌++◌, Memᴰ}
use mathlib.Core.List.Memᴰ
use rpsl.Base.Compare.{or_true}
use rpsl.Base.Lists.{any}

or_right : (b : Bool) (c : Bool) → c ≡ true → (b || c) ≡ true
or_right true c e = refl
or_right false c e = e

module _ {A : Type 0} where
  pub any-true : (f : A → Bool) (xs : List A) → any f xs ≡ true → (x : A) × Memᴰ x xs × (f x ≡ true)
  any-true f [] h = absurd (cc h)
  any-true f (x ∷ xs) h = elim (or_true (f x) (any f xs) h) [
    | inl e ↦ (x, Memᴰ.head refl, e)
    | inr e ↦ let (y, m, t) = any-true f xs e in (y, Memᴰ.tail m, t)
  ]

  pub any_mem : (f : A → Bool) (xs : List A) {x : A} → Memᴰ x xs → f x ≡ true → any f xs ≡ true
  any_mem f [] m t = absurd (Memᴰ.not-nil m)
  any_mem f (y ∷ ys) (Memᴰ.head e) t = rw (sym (ap f e) ∙ t) refl
  any_mem f (y ∷ ys) (Memᴰ.tail m) t = or_right (f y) (any f ys) (any_mem f ys m t)

  -- A member of a list with one more at its end.
  pub last_cases : (xs : List A) {x y : A} → Memᴰ x (xs ++ (y ∷ [])) → Memᴰ x xs ⊎ (x ≡ y)
  last_cases xs m = elim (Memᴰ.append_cases xs m) [
    | inl n ↦ inl n
    | inr n ↦ inr (Memᴰ.eq_of_singleton n)
  ]

  pub last_mem : (xs : List A) (y : A) → Memᴰ y (xs ++ (y ∷ []))
  last_mem xs y = Memᴰ.append_right xs (Memᴰ.head refl)

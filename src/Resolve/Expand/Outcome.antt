-- ===== src/Resolve/Expand/Outcome.antt =====
-- Code that passes a state on and may stop with an error, loops over such code, and what holds of the
-- state that they end with.
use mathlib.Core.List.{Memᴰ}
use mathlib.Core.List.Memᴰ
use mathlib.Core.Path.{subst}
use rpsl.Base.{Bool, true, false, if◌then◌else◌, List, [], ◌∷◌, ◌≡◌, ◌≢◌, refl, sym, inl, inr}

-- `stuck` is no answer of the code: the fuel is spent, or a pointer is nil.
pub data Outcome (E S : Type 0) : Type 0 where
  done : S → Outcome E S
  failed : E → Outcome E S
  stuck : Outcome E S

unfoldable pub and_then : {E S T : Type 0} → Outcome E S → (S → Outcome E T) → Outcome E T
and_then (done s) f = f s
and_then (failed e) f = failed e
and_then stuck f = stuck

-- The loop of `f` over a list, which stops at the first error.
unfoldable pub each : {E S A : Type 0} → (A → S → Outcome E S) → List A → S → Outcome E S
unfolding and_then
each f [] s = done s
each f (a ∷ more) s = and_then (f a s) (each f more)

-- The code is not stuck, and where it does not fail its state is as it should be.
unfoldable pub Ends : {E S : Type 0} → (S → Type 0) → Outcome E S → Type 0
Ends P (done s) = P s
Ends P (failed e) = Unit
Ends P stuck = ⊥

pub Ends-and_then :
    {E S T : Type 0} (P : S → Type 0) (Q : T → Type 0) (o : Outcome E S) (f : S → Outcome E T)
    → Ends P o
    → ((s : S) → P s → Ends Q (f s))
    → Ends Q (and_then o f)
unfolding Ends and_then
Ends-and_then P Q (done s) f p h = h s p
Ends-and_then P Q (failed e) f p h = tt
Ends-and_then P Q stuck f p h = p

pub Ends-mono :
    {E S : Type 0} (P Q : S → Type 0) (o : Outcome E S)
    → ((s : S) → P s → Q s)
    → Ends P o
    → Ends Q o
unfolding Ends
Ends-mono P Q (done s) h p = h s p
Ends-mono P Q (failed e) h p = tt
Ends-mono P Q stuck h p = p

-- Code that branches on a test.
pub Ends-if :
    {E S : Type 0} (P : S → Type 0) (b : Bool) (x y : Outcome E S)
    → (b ≡ true → Ends P x)
    → (b ≡ false → Ends P y)
    → Ends P (if b then x else y)
Ends-if P true x y h k = h refl
Ends-if P false x y h k = k refl

pub Ends-done :
    {E S : Type 0} (P : S → Type 0) (o : Outcome E S) (s : S) → Ends P o → o ≡ done s → P s
unfolding Ends
Ends-done P o s h e = subst (Ends P) e h

pub Ends-failed : {E S : Type 0} (P : S → Type 0) (e : E) → Ends P (failed e)
unfolding Ends
Ends-failed P e = tt

pub Ends-stuck : {E S : Type 0} (P : S → Type 0) (o : Outcome E S) → Ends P o → o ≢ stuck
unfolding Ends
Ends-stuck P o h e = subst (Ends P) e h

-- How a loop ends that keeps an invariant, whose rounds move the state along a relation and each reach
-- their own goal.
pub record Reached {S A : Type 0} (Inv : S → Type 0) (Grows : S → S → Type 0)
    (Goal : A → S → Type 0) (all : List A) (s t : S) : Type 0 where
  pub invariant : Inv t
  pub grows : Grows s t
  pub goals : (a : A) → Memᴰ a all → Goal a t

-- A goal that was reached stays so: all of them are reached at the end.
module _ {S A : Type 0} (Inv : S → Type 0) (Grows : S → S → Type 0) (Goal : A → S → Type 0)
    (Grows-refl : (s : S) → Grows s s)
    (Grows-trans : (s t u : S) → Grows s t → Grows t u → Grows s u)
    (Goal_kept : (a : A) (s t : S) → Grows s t → Goal a s → Goal a t) where
  pub Ends-each :
      {E : Type 0} (f : A → S → Outcome E S) (all : List A)
      → ((a : A) → Memᴰ a all → (s : S) → Inv s → Ends (λ t. Inv t × Grows s t × Goal a t) (f a s))
      → (s : S) → Inv s
      → Ends (Reached Inv Grows Goal all s) (each f all s)
  unfolding each Ends
  Ends-each f [] h s i = record {
    invariant = i;
    grows = Grows-refl s;
    goals = λ a m. absurd (Memᴰ.not-nil m);
  }
  Ends-each f (a ∷ more) h s i =
      Ends-and_then (λ t. Inv t × Grows s t × Goal a t) (Reached Inv Grows Goal (a ∷ more) s)
        (f a s) (each f more) (h a (Memᴰ.head refl) s i)
        (λ t (j, g, reached).
          Ends-mono (Reached Inv Grows Goal more t) (Reached Inv Grows Goal (a ∷ more) s)
            (each f more t)
            (λ u r. record {
              invariant = r.invariant;
              grows = Grows-trans s t u g r.grows;
              goals = λ b m. elim (Memᴰ.cases_cons m) [
                | inl e ↦ subst (λ x. Goal x u) (sym e) (Goal_kept a t u r.grows reached)
                | inr n ↦ r.goals b n
              ];
            })
            (Ends-each f more (λ b m. h b (Memᴰ.tail m)) t j))

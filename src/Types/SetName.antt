-- ===== src/Types/SetName.antt =====
-- types/setname.go: set names, in canonical form. Parse has the parsers of names and references.
pub mod Parse
use rpsl.Base.{
  ℕ, Bool, true, false, ◌&&◌, ◌||◌, List, [], ◌∷◌, get_or, ◌==◌, ==_iff, and_true, ◌≡◌, refl, sym,
  ap, ap₂, ◌∙◌, arith,
}

pub data SetClass : Type 0 where
  class_unknown class_as_set class_route_set class_rtr_set class_filter_set class_peering_set :
      SetClass

pub record SetName : Type 0 where
  pub canon : List ℕ
  pub set_class : SetClass

-- Go's `==` on strings.
unfoldable pub text_eq : List ℕ → List ℕ → Bool
text_eq [] [] = true
text_eq [] (y ∷ ys) = false
text_eq (x ∷ xs) [] = false
text_eq (x ∷ xs) (y ∷ ys) = x == y && text_eq xs ys

pub text_eq_refl : (x : List ℕ) → text_eq x x ≡ true
unfolding text_eq
text_eq_refl [] = refl
text_eq_refl (c ∷ x) = ground (arith, text_eq_refl x)

pub text_eq-eq : (x y : List ℕ) → text_eq x y ≡ true → x ≡ y
unfolding text_eq
text_eq-eq [] [] h = refl
text_eq-eq [] (d ∷ y) h = cc
text_eq-eq (c ∷ x) [] h = cc
text_eq-eq (c ∷ x) (d ∷ y) h = ap₂ ◌∷◌ (ground arith) (text_eq-eq x y (ground arith))

-- "-ANY"
abbrev dash_any : List ℕ
dash_any = b'-' ∷ b'A' ∷ b'N' ∷ b'Y' ∷ []

-- AS-ANY, RS-ANY, RTRS-ANY, PRNG-ANY and FLTR-ANY
unfoldable pub is_any : SetName → Bool
unfolding text_eq
is_any n =
    text_eq n.canon (b'A' ∷ b'S' ∷ dash_any)
    || text_eq n.canon (b'R' ∷ b'S' ∷ dash_any)
    || text_eq n.canon (b'R' ∷ b'T' ∷ b'R' ∷ b'S' ∷ dash_any)
    || text_eq n.canon (b'P' ∷ b'R' ∷ b'N' ∷ b'G' ∷ dash_any)
    || text_eq n.canon (b'F' ∷ b'L' ∷ b'T' ∷ b'R' ∷ dash_any)

unfoldable pub is_unset : SetName → Bool
unfolding text_eq
is_unset n = text_eq n.canon []

-- The number of a class.
abbrev class_code : SetClass → ℕ
class_code class_unknown = 0
class_code class_as_set = 1
class_code class_route_set = 2
class_code class_rtr_set = 3
class_code class_filter_set = 4
class_code class_peering_set = 5

abbrev pub class_eq : SetClass → SetClass → Bool
class_eq c d = class_code c == class_code d

-- `SetClass.String`
unfoldable pub class_text : SetClass → List ℕ
class_text class_as_set = b'a' ∷ b's' ∷ b'-' ∷ b's' ∷ b'e' ∷ b't' ∷ []
class_text class_route_set = b'r' ∷ b'o' ∷ b'u' ∷ b't' ∷ b'e' ∷ b'-' ∷ b's' ∷ b'e' ∷ b't' ∷ []
class_text class_rtr_set = b'r' ∷ b't' ∷ b'r' ∷ b'-' ∷ b's' ∷ b'e' ∷ b't' ∷ []
class_text class_filter_set =
    b'f' ∷ b'i' ∷ b'l' ∷ b't' ∷ b'e' ∷ b'r' ∷ b'-' ∷ b's' ∷ b'e' ∷ b't' ∷ []
class_text class_peering_set =
    b'p' ∷ b'e' ∷ b'e' ∷ b'r' ∷ b'i' ∷ b'n' ∷ b'g' ∷ b'-' ∷ b's' ∷ b'e' ∷ b't' ∷ []
class_text class_unknown = b'u' ∷ b'n' ∷ b'k' ∷ b'n' ∷ b'o' ∷ b'w' ∷ b'n' ∷ []

-- Go's `==` on set names.
unfoldable pub name_eq : SetName → SetName → Bool
unfolding text_eq
name_eq n m = text_eq n.canon m.canon && class_eq n.set_class m.set_class

class_eq_refl : (c : SetClass) → class_eq c c ≡ true
class_eq_refl class_unknown = refl
class_eq_refl class_as_set = refl
class_eq_refl class_route_set = refl
class_eq_refl class_rtr_set = refl
class_eq_refl class_filter_set = refl
class_eq_refl class_peering_set = refl

abbrev class_of : ℕ → SetClass
class_of n =
    get_or (class_unknown ∷ class_as_set ∷ class_route_set ∷ class_rtr_set ∷ class_filter_set ∷ [])
      n class_peering_set

class_of-class_code : (c : SetClass) → class_of (class_code c) ≡ c
class_of-class_code class_unknown = refl
class_of-class_code class_as_set = refl
class_of-class_code class_route_set = refl
class_of-class_code class_rtr_set = refl
class_of-class_code class_filter_set = refl
class_of-class_code class_peering_set = refl

pub class_eq-true : (c d : SetClass) → class_eq c d ≡ true → c ≡ d
class_eq-true c d h =
    sym (class_of-class_code c)
    ∙ ap class_of ((==_iff (class_code c) (class_code d)).0 h)
    ∙ class_of-class_code d

pub name_eq_refl : (n : SetName) → name_eq n n ≡ true
unfolding name_eq
name_eq_refl n = rw (text_eq_refl n.canon, class_eq_refl n.set_class) refl

pub name_eq-true : (n m : SetName) → name_eq n m ≡ true → n ≡ m
unfolding name_eq
name_eq-true n m h =
    let (texts, classes) =
      and_true (text_eq n.canon m.canon) (class_eq n.set_class m.set_class) h in
    let text = text_eq-eq n.canon m.canon texts in
    let class = class_eq-true n.set_class m.set_class classes in
    λ i. record { canon = text i; set_class = class i }

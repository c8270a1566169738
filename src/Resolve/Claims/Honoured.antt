-- ===== src/Resolve/Claims/Honoured.antt =====
-- `ClaimAllowed` of resolve/claims.go against the rule of mbrs-by-ref.
use mathlib.Core.List.{Memᴰ}
use mathlib.Core.List.Memᴰ
use mathlib.Core.Path.{subst}
use rpsl.Base.{
  ◌≡◌, ◌≢◌, ◌↔◌, refl, sym, ap, ◌∙◌, inl, inr, Bool, true, false, not, ◌||◌, List, [], ◌∷◌, Option,
  none, some, any, length, ◌==◌, ==_iff, arith, if◌then◌else◌,
}
use rpsl.Base.Membership.{any-true, any_mem}
use rpsl.Lexer.Text.{Bytes}
use rpsl.Object.Sets.{NamedSet, Claimed, ClaimObject}
use rpsl.Resolve.Claims.Claimant.{MayClaim, claimant_iff, same_claimed}
use rpsl.Resolve.Claims.{
  equal_fold_ascii, names, any_mntner, claimant, mntner_key, with_key, allow, shares, allowed_by,
  claim_allowed,
}
use rpsl.Types.SetName.{
  SetName, text_eq, text_eq-eq, text_eq_refl, name_eq, name_eq-true, name_eq_refl,
}

module _ (trim_space : Bytes → Bytes) where
  abbrev key : Bytes → Bytes
  key = mntner_key trim_space

  -- One of the maintainers that enable membership is ANY, or is one of the object's, and no blank.
  pub data Maintained (refs mnts : List Bytes) : Type 0 where
    any_may : (m : Bytes) → Memᴰ m refs → key m ≡ any_mntner → Maintained refs mnts
    shared :
        (m q : Bytes)
        → Memᴰ m refs
        → Memᴰ q mnts
        → key m ≡ key q
        → key q ≢ []
        → Maintained refs mnts

  -- The rule of mbrs-by-ref.
  pub record Honours (o : ClaimObject) (set : NamedSet) : Type 0 where
    pub claimed : Claimed
    pub may_claim : MayClaim trim_space o claimed
    pub named : Memᴰ set.name claimed.member_of
    pub same_source : equal_fold_ascii (trim_space claimed.source) (trim_space set.source) ≡ true
    pub maintained : Maintained set.ref_mntners claimed.mnt_by

  -- What the loop over mbrs-by-ref finds.
  abbrev IsKey : List Bytes → Bytes → Type 0
  IsKey refs k = (m : Bytes) × Memᴰ m refs × (key m ≡ k) × (k ≢ [])

  AllowSays : List Bytes → Option (List Bytes) → Type 0
  AllowSays refs none = (m : Bytes) × Memᴰ m refs × (key m ≡ any_mntner)
  AllowSays refs (some keys) =
      ((m : Bytes) → Memᴰ m refs → key m ≢ any_mntner)
      × ((k : Bytes) → (Memᴰ k keys ↔ IsKey refs k))

  empty_text : (k : Bytes) → (length k == 0) ≡ true → k ≡ []
  empty_text [] h = refl
  empty_text (c ∷ k) h = absurd (omega (arith, (==_iff (length (c ∷ k)) 0).0 h))

  some_text : (k : Bytes) → (length k == 0) ≡ false → k ≢ []
  some_text [] h = λ e. cc h
  some_text (c ∷ k) h = λ e. cc e

  later-IsKey : (m : Bytes) (refs : List Bytes) (k : Bytes) → IsKey refs k → IsKey (m ∷ refs) k
  later-IsKey m refs k (q, n, h, s) = (q, Memᴰ.tail n, h, s)

  AllowSays-with_key :
      (m : Bytes) (refs : List Bytes) (o : Option (List Bytes))
      → AllowSays refs o
      → AllowSays (m ∷ refs) (with_key trim_space (key m) o)
  unfolding with_key AllowSays
  AllowSays-with_key m refs o h = of (text_eq (key m) any_mntner) refl o h
    where
      keys_of : Bool → List Bytes → List Bytes
      keys_of b keys = if b then keys else key m ∷ keys

      adds_key :
          (keys : List Bytes) (b : Bool)
          → (length (key m) == 0) ≡ b
          → ((k : Bytes) → (Memᴰ k keys ↔ IsKey refs k))
          → (k : Bytes) → (Memᴰ k (keys_of b keys) ↔ IsKey (m ∷ refs) k)
      adds_key keys true x all k = (
        λ n. later-IsKey m refs k ((all k).0 n),
        λ (q, n, y, s). elim (Memᴰ.cases_cons n) [
          | inl same ↦ absurd (s (sym y ∙ ap key same ∙ empty_text (key m) x))
          | inr l ↦ (all k).1 (q, l, y, s)
        ],
      )
      adds_key keys false x all k = (
        λ n. elim (Memᴰ.cases_cons n) [
          | inl same ↦
              (m, Memᴰ.head refl, sym same, λ none_left. some_text (key m) x (sym same ∙ none_left))
          | inr l ↦ later-IsKey m refs k ((all k).0 l)
        ],
        λ (q, n, y, s). elim (Memᴰ.cases_cons n) [
          | inl same ↦ Memᴰ.head (sym y ∙ ap key same)
          | inr l ↦ Memᴰ.tail ((all k).1 (q, l, y, s))
        ],
      )

      of :
          (b : Bool)
          → text_eq (key m) any_mntner ≡ b
          → (o : Option (List Bytes)) → AllowSays refs o
          → AllowSays (m ∷ refs) (
              if b then none else (elim o [
                | none ↦ none
                | some keys ↦ some (if length (key m) == 0 then keys else key m ∷ keys)
              ]))
      of true x o h = (m, Memᴰ.head refl, text_eq-eq (key m) any_mntner x)
      of false x none (q, n, y) = (q, Memᴰ.tail n, y)
      of false x (some keys) (no_any, all) = (
        λ q n. elim (Memᴰ.cases_cons n) [
          | inl same ↦ λ y. cc (
              sym x
              ∙ ap (λ z. text_eq z any_mntner) (ap key (sym same) ∙ y)
              ∙ text_eq_refl any_mntner)
          | inr l ↦ no_any q l
        ],
        adds_key keys (length (key m) == 0) refl all,
      )

  AllowSays-allow : (refs : List Bytes) → AllowSays refs (allow trim_space refs)
  unfolding allow AllowSays
  AllowSays-allow [] = (
    λ m n. absurd (Memᴰ.not-nil n),
    λ k. (λ n. absurd (Memᴰ.not-nil n), λ (m, n, h, s). absurd (Memᴰ.not-nil n)),
  )
  AllowSays-allow (m ∷ refs) =
      AllowSays-with_key m refs (allow trim_space refs) (AllowSays-allow refs)

  shares_iff :
      (refs mnts : List Bytes) (o : Option (List Bytes))
      → AllowSays refs o
      → ((shares trim_space o mnts ≡ true) ↔ Maintained refs mnts)
  unfolding shares AllowSays
  shares_iff refs mnts none (m, n, h) = (λ e. any_may m n h, λ k. refl)
  shares_iff refs mnts (some keys) (no_any, all) = (
    λ e.
        let (q, l, t) = any-true (λ x. any (text_eq (key x)) keys) mnts e in
        let (k, n, same) = any-true (text_eq (key q)) keys t in
        let (m, r, h, s) = (all k).0 n in
        let equal = text_eq-eq (key q) k same in
        shared m q r l (h ∙ sym equal) (λ x. s (sym equal ∙ x)),
    λ h. elim h [
      | any_may m n x ↦ absurd (no_any m n x)
      | shared m q n l same some_key ↦
          any_mem (λ x. any (text_eq (key x)) keys) mnts l
            (any_mem (text_eq (key q)) keys ((all (key q)).1 (m, n, same, some_key))
              (text_eq_refl (key q)))
    ],
  )

  both : (b c : Bool) → (not b || not c) ≡ false → (b ≡ true) × (c ≡ true)
  both true true h = (refl, refl)
  both true false h = absurd (cc h)
  both false c h = absurd (cc h)

  named_mem : (n : SetName) (list : List SetName) → names list n ≡ true → Memᴰ n list
  named_mem n list h =
      let (m, l, t) = any-true (λ x. name_eq x n) list h in Memᴰ.cast (sym (name_eq-true m n t)) l

  -- What the test says of the fields that a claim is judged by.
  abbrev Judged : NamedSet → Claimed → Type 0
  Judged set c =
      Memᴰ set.name c.member_of
      × (equal_fold_ascii (trim_space c.source) (trim_space set.source) ≡ true)
      × Maintained set.ref_mntners c.mnt_by

  allowed_by-Judged :
      (set : NamedSet) (c : Claimed) → ((allowed_by trim_space set (some c) ≡ true) ↔ Judged set c)
  unfolding allowed_by
  allowed_by-Judged set c =
      of (names c.member_of set.name) refl
        (equal_fold_ascii (trim_space c.source) (trim_space set.source)) refl
    where
      rest : Bool
      rest = shares trim_space (allow trim_space set.ref_mntners) c.mnt_by

      rule : (rest ≡ true) ↔ Maintained set.ref_mntners c.mnt_by
      rule =
          shares_iff set.ref_mntners c.mnt_by (allow trim_space set.ref_mntners)
            (AllowSays-allow set.ref_mntners)

      of :
          (a : Bool)
          → names c.member_of set.name ≡ a
          → (b : Bool) → equal_fold_ascii (trim_space c.source) (trim_space set.source) ≡ b
          → (((if not a || not b then false else rest) ≡ true) ↔ Judged set c)
      of true x true y =
          (λ h. (named_mem set.name c.member_of x, y, rule.0 h), λ (m, s, k). rule.1 k)
      of true x false y = (λ h. absurd (cc h), λ (m, s, k). absurd (cc (sym s ∙ y)))
      of false x b y = (
        λ h. absurd (cc h),
        λ (m, s, k).
            absurd (
              cc (sym x ∙ any_mem (λ n. name_eq n set.name) c.member_of m (name_eq_refl set.name))),
      )

-- ClaimAllowed accepts an object's membership in a set exactly when the object is an aut-num, route,
-- route6 or inet-rtr, whatever the class of the set, and names the set, comes from the set's own
-- source, and the set's mbrs-by-ref has ANY or a maintainer, no blank, that is one of the object's.
-- The text of an aut-num, where it has one, must have an AS number with its letters AS as its key.
-- Sources and maintainers are compared without spaces around them and without regard to ASCII case.
pub claim_allowed_lem :
    (trim_space : Bytes → Bytes) (o : ClaimObject) (set : NamedSet)
    → ((claim_allowed trim_space o set ≡ true) ↔ Honours trim_space o set)
unfolding claim_allowed
claim_allowed_lem trim_space o set = of (claimant trim_space o) refl
  where
    of :
        (x : Option Claimed)
        → claimant trim_space o ≡ x
        → ((allowed_by trim_space set x ≡ true) ↔ Honours trim_space o set)
    of none h = (
      λ e. absurd (cc e),
      λ k. absurd (cc (sym h ∙ (claimant_iff trim_space o k.claimed).1 k.may_claim)),
    )
    of (some c) h = (
      λ a.
          let (m, s, k) = (allowed_by-Judged trim_space set c).0 a in
          record {
            claimed = c;
            may_claim = (claimant_iff trim_space o c).0 h;
            named = m;
            same_source = s;
            maintained = k;
          },
      λ k. (allowed_by-Judged trim_space set c).1 (
          subst (Judged trim_space set)
            (same_claimed trim_space k.claimed c
              (sym ((claimant_iff trim_space o k.claimed).1 k.may_claim) ∙ h))
            (k.named, k.same_source, k.maintained)),
    )

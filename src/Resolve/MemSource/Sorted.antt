-- ===== src/Resolve/MemSource/Sorted.antt =====
-- Copies of a set in the order of their ranks, and the first of them that passes a test.
use mathlib.Core.List.{Memᴰ}
use mathlib.Core.List.Memᴰ
use rpsl.Base.{
  ℕ, ◌≤◌, ◌≡◌, refl, sym, ap, ◌∙◌, ◌⊎◌, inl, inr, Bool, true, false, List, [], ◌∷◌, Option, none,
  some, leb, arith, if_some, if◌then◌else◌,
}
use rpsl.Resolve.MemSource.{MemSet, find_first, insert_copy, sort_copies}

module _ (rank_of : MemSet → ℕ) (passes : MemSet → Bool) where
  -- No copy behind one has a lower rank.
  data IsSorted : List MemSet → Type 0 where
    sorted_nil : IsSorted []
    sorted_cons :
        {c : MemSet} {cs : List MemSet}
        → ((d : MemSet) → Memᴰ d cs → rank_of c ≤ rank_of d)
        → IsSorted cs
        → IsSorted (c ∷ cs)

  -- The earlier of two where their ranks are the same, or else the lower.
  unfoldable pub better : MemSet → Option MemSet → MemSet
  better c none = c
  better c (some d) = if leb (rank_of c) (rank_of d) then c else d

  unfoldable pub winner : List MemSet → Option MemSet
  unfolding better
  winner [] = none
  winner (c ∷ cs) = let rest = winner cs in if passes c then some (better c rest) else rest

  same_copy : (c d : MemSet) → some c ≡ some d → c ≡ d
  same_copy c d h = cc h

  find_first_mem : (cs : List MemSet) (c : MemSet) → find_first passes cs ≡ some c → Memᴰ c cs
  unfolding find_first
  find_first_mem [] c h = absurd (cc h)
  find_first_mem (d ∷ cs) c h = elim (if_some (passes d) (some d) (find_first passes cs) c h) [
    | inl (t, x) ↦ Memᴰ.head (sym (same_copy d c x))
    | inr (t, x) ↦ Memᴰ.tail (find_first_mem cs c x)
  ]

  better_first :
      (c : MemSet) (o : Option MemSet)
      → ((d : MemSet) → o ≡ some d → rank_of c ≤ rank_of d)
      → better c o ≡ c
  unfolding better
  better_first c none h = refl
  better_first c (some d) h =
      let t : leb (rank_of c) (rank_of d) ≡ true = ground (arith, h d refl) in rw t refl

  least :
      (d : MemSet) (ds : List MemSet) (c : MemSet)
      → IsSorted (d ∷ ds)
      → rank_of c ≤ rank_of d
      → (x : MemSet) → Memᴰ x (d ∷ ds)
      → rank_of c ≤ rank_of x
  least d ds c (sorted_cons h s) le x m = elim (Memᴰ.cases_cons m) [
    | inl same ↦ omega (arith, le, ap rank_of same)
    | inr k ↦ omega (arith, le, h x k)
  ]

  later : {c : MemSet} {cs : List MemSet} → IsSorted (c ∷ cs) → IsSorted cs
  later (sorted_cons h s) = s

  -- The first copy that passes, when one more is put in order.
  abbrev chosen : MemSet → Option MemSet → Option MemSet
  chosen c rest = if passes c then some (better c rest) else rest

  find_first-insert_copy :
      (c : MemSet) (ds : List MemSet)
      → IsSorted ds
      → find_first passes (insert_copy rank_of c ds) ≡ chosen c (find_first passes ds)
  unfolding find_first insert_copy better
  find_first-insert_copy c [] s = refl
  find_first-insert_copy c (d ∷ ds) s =
      of (leb (rank_of c) (rank_of d)) refl (find_first-insert_copy c ds (later s))
    where
      rest : Option MemSet
      rest = find_first passes ds

      all : Option MemSet
      all = if passes d then some d else rest

      behind :
          (b : Bool)
          → passes d ≡ b
          → leb (rank_of c) (rank_of d) ≡ false
          → find_first passes (insert_copy rank_of c ds) ≡ chosen c rest
          → (if b then some d else find_first passes (insert_copy rank_of c ds))
            ≡ chosen c (if b then some d else rest)
      behind true x t ih = of_c (passes c)
        where
          of_c : (p : Bool) → some d ≡ (if p then some (better c (some d)) else some d)
          of_c true = sym (ap (λ b. some (if b then c else d)) t)
          of_c false = refl
      behind false x t ih = ih

      in_front : leb (rank_of c) (rank_of d) ≡ true → better c all ≡ c
      in_front t =
          better_first c all
            (λ x h. least d ds c s (ground (arith, t)) x (find_first_mem (d ∷ ds) x h))

      of :
          (b : Bool)
          → leb (rank_of c) (rank_of d) ≡ b
          → find_first passes (insert_copy rank_of c ds) ≡ chosen c rest
          → find_first passes (if b then c ∷ d ∷ ds else d ∷ insert_copy rank_of c ds)
            ≡ chosen c all
      of true t ih = ap (λ x. if passes c then some x else all) (sym (in_front t))
      of false t ih = behind (passes d) refl t ih

  insert_copy_mem :
      (c : MemSet) (ds : List MemSet) (x : MemSet)
      → Memᴰ x (insert_copy rank_of c ds)
      → (x ≡ c) ⊎ Memᴰ x ds
  unfolding insert_copy
  insert_copy_mem c [] x m = inl (Memᴰ.eq_of_singleton m)
  insert_copy_mem c (d ∷ ds) x m =
      of (leb (rank_of c) (rank_of d)) m (λ k. insert_copy_mem c ds x k)
    where
      of :
          (b : Bool)
          → Memᴰ x (if b then c ∷ d ∷ ds else d ∷ insert_copy rank_of c ds)
          → (Memᴰ x (insert_copy rank_of c ds) → (x ≡ c) ⊎ Memᴰ x ds)
          → (x ≡ c) ⊎ Memᴰ x (d ∷ ds)
      of true k ih = Memᴰ.cases_cons k
      of false k ih = elim (Memᴰ.cases_cons k) [
        | inl same ↦ inr (Memᴰ.head same)
        | inr l ↦ elim (ih l) [ inl same ↦ inl same | inr n ↦ inr (Memᴰ.tail n) ]
      ]

  IsSorted-insert_copy :
      (c : MemSet) (ds : List MemSet) → IsSorted ds → IsSorted (insert_copy rank_of c ds)
  unfolding insert_copy
  IsSorted-insert_copy c [] s = sorted_cons (λ x m. absurd (Memᴰ.not-nil m)) sorted_nil
  IsSorted-insert_copy c (d ∷ ds) s =
      of (leb (rank_of c) (rank_of d)) refl (IsSorted-insert_copy c ds (later s))
    where
      of :
          (b : Bool)
          → leb (rank_of c) (rank_of d) ≡ b
          → IsSorted (insert_copy rank_of c ds)
          → IsSorted (if b then c ∷ d ∷ ds else d ∷ insert_copy rank_of c ds)
      of true t ih = sorted_cons (λ x m. least d ds c s (ground (arith, t)) x m) s
      of false t ih =
          sorted_cons {c = d} {cs = insert_copy rank_of c ds}
            (λ x m. elim (insert_copy_mem c ds x m) [
              | inl same ↦ ground (arith, t, ap rank_of same)
              | inr k ↦ least d ds d s (omega arith) x (Memᴰ.tail k)
            ])
            ih

  IsSorted-sort_copies : (cs : List MemSet) → IsSorted (sort_copies rank_of cs)
  unfolding sort_copies
  IsSorted-sort_copies [] = sorted_nil
  IsSorted-sort_copies (c ∷ cs) =
      IsSorted-insert_copy c (sort_copies rank_of cs) (IsSorted-sort_copies cs)

  pub find_first-sort_copies :
      (cs : List MemSet) → find_first passes (sort_copies rank_of cs) ≡ winner cs
  unfolding sort_copies winner find_first
  find_first-sort_copies [] = refl
  find_first-sort_copies (c ∷ cs) =
      find_first-insert_copy c (sort_copies rank_of cs) (IsSorted-sort_copies cs)
      ∙ ap (chosen c) (find_first-sort_copies cs)

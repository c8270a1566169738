-- ===== src/Lexer/Partition.antt =====
-- The tokens of a source partition it: nothing is lost, doubled or out of order.
use mathlib.Core.List.{append-nil, append_assoc}
use mathlib.Core.Path.{subst}
use rpsl.Base.{
  ℕ, ◌+◌, ◌-◌, ◌≡◌, refl, sym, ap, ◌∙◌, Bool, true, false, Option, none, some, List, [], ◌∷◌, ◌++◌,
  length, take, drop, length-append, arith,
}
use rpsl.Lexer.Text.{Bytes}
use rpsl.Lexer.Lines.{PhysLine, Covers, scan_lines, scan_lines-Covers}
use rpsl.Lexer.{
  Kind, kind_attribute, Token, classify, slice, Pending, Folding, have_cur, end_of, flush,
  continue_with, start_pending, line_token, start_line, place, step, run, tokenize_at,
}

-- The bytes of the tokens, one behind the other.
abbrev pub raws : List Token → Bytes
raws [] = []
raws (t ∷ ts) = t.raw ++ raws ts

-- Each token begins where the one before it ends, the first at `from`, and its span is as long as its
-- bytes.
abbrev pub Chain : ℕ → List Token → Type 0
Chain from [] = Unit
Chain from (t ∷ ts) =
    (t.span.start_byte ≡ from)
    × (t.span.end_byte ≡ from + length t.raw)
    × Chain (from + length t.raw) ts

raws-append : (ts us : List Token) → raws (ts ++ us) ≡ raws ts ++ raws us
raws-append [] us = refl
raws-append (t ∷ ts) us =
    ap (λ x. t.raw ++ x) (raws-append ts us) ∙ sym (append_assoc t.raw (raws ts) (raws us))

Chain-append :
    (from : ℕ) (ts us : List Token)
    → Chain from ts
    → Chain (from + length (raws ts)) us
    → Chain from (ts ++ us)
Chain-append from [] us h k = subst (λ n. Chain n us) (omega arith) k
Chain-append from (t ∷ ts) us (a, b, h) k = (
  a,
  b,
  Chain-append (from + length t.raw) ts us h
      (subst (λ n. Chain n us) (omega (arith, length-append t.raw (raws ts))) k),
)

drop-length : (a b : Bytes) → drop (length a) (a ++ b) ≡ b
drop-length [] b = refl
drop-length (x ∷ a) b = drop-length a b

take-length : (a b : Bytes) → take (length a) (a ++ b) ≡ a
take-length [] b = refl
take-length (x ∷ a) b = ap (◌∷◌ x) (take-length a b)

slice_middle :
    (a b c : Bytes) (i j : ℕ)
    → i ≡ length a
    → j ≡ length a + length b
    → slice (a ++ (b ++ c)) i j ≡ b
unfolding slice
slice_middle a b c i j p q =
    let e : j - i ≡ length b = omega arith in rw (e, p, drop-length) (take-length b c)

module _ (src : Bytes) (line off : ℕ) where
  -- What the loop has done with the bytes `done`: the tokens made, and the attribute in progress.
  abbrev Holds : List Token → Option Pending → Bytes → Type 0
  Holds toks none done = (raws toks ≡ done) × Chain off toks
  Holds toks (some c) done =
      (body : Bytes) × (done ≡ raws toks ++ body)
      × (c.cur_start ≡ length (raws toks))
      × (c.span.start_byte ≡ off + c.cur_start)
      × (c.span.end_byte ≡ off + length done)
      × Chain off toks

  -- A token made of the bytes behind those of `toks`.
  Holds-token :
      (toks : List Token) (t : Token) (body : Bytes)
      → Chain off toks
      → t.raw ≡ body
      → t.span.start_byte ≡ off + length (raws toks)
      → t.span.end_byte ≡ off + length (raws toks ++ body)
      → Holds (toks ++ t ∷ []) none (raws toks ++ body)
  Holds-token toks t body k r s e = (
    raws-append toks (t ∷ []) ∙ ap (λ x. raws toks ++ x) (append-nil t.raw ∙ r),
    Chain-append off toks (t ∷ []) k
        (s, e ∙ omega (arith, length-append (raws toks) body, ap (length {0}) r), tt),
  )

  Holds-flush :
      (toks : List Token) (cur : Option Pending) (done rest : Bytes)
      → src ≡ done ++ rest
      → Holds toks cur done
      → Holds (flush src line off toks cur) none done
  unfolding flush
  Holds-flush toks none done rest s h = h
  Holds-flush toks (some c) done rest s (body, d, cs, sb, eb, k) = subst (Holds _ none) (sym d) (
      Holds-token toks _ body k
        (rw s (
          ap (λ x. slice (x ++ rest) c.cur_start (c.span.end_byte - off)) d
          ∙ rw append_assoc (
              slice_middle (raws toks) body rest c.cur_start (c.span.end_byte - off) cs
                (omega (arith, ap (length {0}) d, length-append (raws toks) body)))))
        (omega arith) (eb ∙ ap (λ x. off + length x) d))

  classify_cont : (text : Bytes) (h : Bool) → (classify text h).1 ≡ true → h ≡ true
  unfolding classify
  classify_cont text h e = ground arith

  module _ (pl : PhysLine) (done behind : Bytes) (starts : pl.start ≡ length done)
      (splits : src ≡ done ++ (pl.text ++ (pl.term ++ behind))) where
    abbrev line_bytes : Bytes
    line_bytes = pl.text ++ pl.term

    Holds-continue :
        (toks : List Token) (c : Pending)
        → Holds toks (some c) done
        → Holds toks (some (continue_with src line off pl c)) (done ++ line_bytes)
    unfolding continue_with
    Holds-continue toks c (body, d, cs, sb, eb, k) = (
      body ++ line_bytes,
      ap (λ x. x ++ line_bytes) d ∙ append_assoc (raws toks) body line_bytes,
      cs,
      sb,
      omega (arith, starts, length-append done line_bytes, length-append pl.text pl.term),
      k,
    )

    Holds-start_line :
        (kind : Kind) (toks : List Token)
        → Holds toks none done
        → let st = start_line src line off kind pl (record { toks = toks; cur = none }) in
          Holds st.toks st.cur (done ++ line_bytes)
    unfolding start_line
    Holds-start_line kind_attribute toks (r, k) =
        unfold start_pending in
        (
          line_bytes,
          ap (λ x. x ++ line_bytes) (sym r),
          omega (arith, starts, ap (length {0}) r),
          refl,
          omega (arith, starts, length-append done line_bytes, length-append pl.text pl.term),
          k,
        )
    Holds-start_line kind toks (r, k) =
        subst (λ x. Holds (toks ++ line_token src line off kind pl ∷ []) none (x ++ line_bytes)) r
          (Holds-token toks (line_token src line off kind pl) line_bytes k
            (ap (λ x. slice x pl.start (end_of src line off pl))
                (splits ∙ ap (λ x. done ++ x) (sym (append_assoc pl.text pl.term behind)))
              ∙ slice_middle done line_bytes behind pl.start (end_of src line off pl) starts
                  (omega (arith, length-append pl.text pl.term)))
            (omega (arith, starts, ap (length {0}) r))
            (omega (
              arith,
              starts,
              ap (length {0}) r,
              length-append (raws toks) line_bytes,
              length-append pl.text pl.term,
            )))

    Holds-cur :
        (toks : List Token) (cur : Option Pending)
        → Holds toks cur done
        → have_cur cur ≡ true
        → Holds toks
            (elim cur [ none ↦ none | some c ↦ some (continue_with src line off pl c) ])
            (done ++ line_bytes)
    Holds-cur toks none k e = cc
    Holds-cur toks (some c) k e = Holds-continue toks c k

    Holds-place :
        (kind : Kind) (is_cont : Bool) (st : Folding)
        → (is_cont ≡ true → have_cur st.cur ≡ true)
        → Holds st.toks st.cur done
        → let next = place src line off kind is_cont st pl in
          Holds next.toks next.cur (done ++ line_bytes)
    unfolding place
    Holds-place kind true st e h = Holds-cur st.toks st.cur h (e refl)
    Holds-place kind false st e h =
        Holds-start_line kind (flush src line off st.toks st.cur)
          (Holds-flush st.toks st.cur done (pl.text ++ (pl.term ++ behind)) splits h)

    Holds-step :
        (st : Folding)
        → Holds st.toks st.cur done
        → let next = step src line off st pl in Holds next.toks next.cur (done ++ line_bytes)
    unfolding step
    Holds-step st h =
        Holds-place (classify pl.text (have_cur st.cur)).0 (classify pl.text (have_cur st.cur)).1 st
          (classify_cont pl.text (have_cur st.cur)) h

  Holds-run :
      (pls : List PhysLine) (st : Folding) (done rest : Bytes)
      → src ≡ done ++ rest
      → Covers (length done) rest pls
      → Holds st.toks st.cur done
      → Holds (run src line off st pls) none src
  unfolding run
  Holds-run [] st done rest s c h =
      let e : src ≡ done = s ∙ ap (λ x. done ++ x) c ∙ append-nil done in
      subst (Holds _ none) (sym e) (Holds-flush st.toks st.cur done rest s h)
  Holds-run (pl ∷ pls) st done rest s (behind, starts, r, c) h =
      let split : src ≡ done ++ (pl.text ++ (pl.term ++ behind)) = s ∙ ap (λ x. done ++ x) r in
      Holds-run pls (step src line off st pl) (done ++ (pl.text ++ pl.term)) behind
        (split
          ∙ ap (λ x. done ++ x) (sym (append_assoc pl.text pl.term behind))
          ∙ sym (append_assoc done (pl.text ++ pl.term) behind))
        (subst (λ n. Covers n behind pls)
          (omega (arith, length-append done (pl.text ++ pl.term), length-append pl.text pl.term)) c)
        (Holds-step pl done behind starts split st h)

  Holds-tokenize_at : Holds (tokenize_at src line off) none src
  unfolding tokenize_at
  Holds-tokenize_at =
      Holds-run (scan_lines src) (record { toks = []; cur = none }) [] src refl
        (scan_lines-Covers src) (refl, tt)

-- The bytes of the tokens of a source, in order, are the source; and their spans follow each other
-- from the source's byte offset on, each as long as its token.
pub tokenize_partition :
    (src : Bytes) (line off : ℕ)
    → (raws (tokenize_at src line off) ≡ src) × Chain off (tokenize_at src line off)
tokenize_partition src line off = Holds-tokenize_at src line off

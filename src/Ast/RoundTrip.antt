-- ===== src/Ast/RoundTrip.antt =====
-- The object of a source's tokens reproduces the source.
use mathlib.Core.List.{append-nil, append_assoc}
use rpsl.Base.{◌≡◌, refl, sym, ap, ◌∙◌, Bool, true, false, List, [], ◌∷◌, ◌++◌}
use rpsl.Lexer.{Token, tokenize_at}
use rpsl.Lexer.Partition.{raws, tokenize_partition}
use rpsl.Lexer.Text.{Bytes}
use rpsl.Ast.{is_attribute, attribute_of, join_raw, new_from, new, string, text_of}
use rpsl.Base.{ℕ}

join_raw-append : (ts us : List Token) → join_raw (ts ++ us) ≡ join_raw ts ++ join_raw us
unfolding join_raw
join_raw-append [] us = refl
join_raw-append (t ∷ ts) us =
    ap (λ x. t.raw ++ x) (join_raw-append ts us)
    ∙ sym (append_assoc t.raw (join_raw ts) (join_raw us))

module _ (trim_space : Bytes → Bytes) where
  string-new_from :
      (toks run : List Token) → string (new_from trim_space toks run) ≡ join_raw run ++ raws toks
  unfolding string text_of new_from join_raw
  string-new_from [] run = sym (append-nil (join_raw run))
  string-new_from (t ∷ toks) run =
      either (is_attribute t.kind) (string-new_from toks []) (string-new_from toks (run ++ t ∷ []))
    where
      either :
          (b : Bool)
          → string (new_from trim_space toks []) ≡ raws toks
          → string (new_from trim_space toks (run ++ t ∷ []))
            ≡ join_raw (run ++ t ∷ []) ++ raws toks
          → string (elim b [
            | true ↦
                let o = new_from trim_space toks [] in
                record { attrs = attribute_of trim_space t run ∷ o.attrs; trail = o.trail }
            | false ↦ new_from trim_space toks (run ++ t ∷ [])
          ])
            ≡ join_raw run ++ (t.raw ++ raws toks)
      either true h k =
          append_assoc (join_raw run) (t.raw ++ text_of (new_from trim_space toks []).attrs) _
          ∙ ap (λ x. join_raw run ++ x) (append_assoc t.raw _ _ ∙ ap (λ x. t.raw ++ x) h)
      either false h k =
          k
          ∙ ap (λ x. x ++ raws toks)
              (join_raw-append run (t ∷ []) ∙ ap (λ x. join_raw run ++ x) (append-nil t.raw))
          ∙ append_assoc (join_raw run) t.raw (raws toks)

  -- The object of a source's tokens, written out, is the source, wherever the source stands in a
  -- stream.
  pub string-new-tokenize_at :
      (src : Bytes) (line off : ℕ) → string (new trim_space (tokenize_at src line off)) ≡ src
  unfolding new join_raw
  string-new-tokenize_at src line off =
      string-new_from (tokenize_at src line off) [] ∙ (tokenize_partition src line off).0

-- ===== src/Tests/Copies.antt =====
-- Two copies of one as-set in memory, from the sources R and S, where S takes precedence.
use rpsl.Base.{ℕ, ◌≡◌, refl, Bool, true, false, List, [], ◌∷◌, none, some}
use rpsl.Lexer.Text.{Bytes}
use rpsl.Object.Members.{member_as}
use rpsl.Object.Sets.{NamedSet, set_body, aut_num}
use rpsl.Resolve.Expand.{fetched, fetch_failed, not_found}
use rpsl.Resolve.Expand.Outcome.{done}
use rpsl.Resolve.Expand.Ranges.{expand_as}
use rpsl.Resolve.MemSource.{
  CorpusObject, a_set, an_object, MemSource, new_mem_source, get_set, source_of,
}
use rpsl.Resolve.MemSource.Precedence.{Answered, get_set-Answered}
use rpsl.Tests.Expansion.{as_is, as_name, member, expander}
use rpsl.Types.PrefixRange.{range_exact}
use rpsl.Types.SetRef.{SetRef, ref}

abbrev copy_of : ℕ → ℕ → NamedSet
copy_of source a = record {
  class = b'a' ∷ b's' ∷ b'-' ∷ b's' ∷ b'e' ∷ b't' ∷ [];
  name = as_name b'A';
  source = source ∷ [];
  ref_mntners = (b'A' ∷ b'N' ∷ b'Y' ∷ []) ∷ [];
  body = set_body (member member_as a (as_name b'A') range_exact ∷ []) [];
}

abbrev corpus : List CorpusObject
corpus =
    a_set (copy_of b'R' 1)
    ∷ an_object 0 (
        aut_num 7
          (record { member_of = as_name b'A' ∷ []; mnt_by = []; source = b'S' ∷ []; text = none }))
    ∷ a_set (copy_of b'S' 5)
    ∷ a_set (copy_of b'S' 6)
    ∷ []

abbrev every : Bytes → Bool
every source = true

abbrev precedence : List Bytes
precedence = (b's' ∷ []) ∷ []

abbrev memory : MemSource
memory = new_mem_source as_is as_is every precedence corpus

abbrev scoped_to : ℕ → SetRef
scoped_to source = record { source = source ∷ []; name = as_name b'A' }

get_set_run :
    (get_set as_is as_is every precedence memory (ref (as_name b'A'))
      ≡ fetched (some (copy_of b'S' 5)))
    × (get_set as_is as_is every precedence memory (scoped_to b'R')
        ≡ fetched (some (copy_of b'R' 1)))
    × (get_set as_is as_is every precedence memory (scoped_to b'T') ≡ fetch_failed not_found)
unfolding get_set new_mem_source
get_set_run = (refl, refl, refl)

get_set-Answered_example :
    Answered as_is as_is every precedence corpus
      (ref (as_name b'A'))
      (get_set as_is as_is every precedence memory (ref (as_name b'A')))
get_set-Answered_example = get_set-Answered as_is as_is every precedence corpus (ref (as_name b'A'))

-- The expansion over that Source: the member of the copy that wins, and the aut-num that claims it.
expand_as-memory_run :
    expand_as as_is
      (source_of as_is as_is every precedence memory)
      expander
      false
      (ref (as_name b'A'))
    ≡ done (record { is_any = false; asns = 5 ∷ 7 ∷ []; missing = [] })
unfolding expand_as source_of new_mem_source
expand_as-memory_run = refl

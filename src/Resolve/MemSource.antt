-- ===== src/Resolve/MemSource.antt =====
-- resolve/memsource.go: the Source in memory, less aut-nums, inet-rtrs and the index of peers. A map is a
-- function of its key. `strings.TrimSpace` and `strings.ToUpper`, which know Unicode, are parameters, and
-- so is `dflt`, which sources an unscoped lookup sees.
pub mod Sorted
pub mod Precedence
use rpsl.Base.{
  ℕ, suc, Bool, true, false, not, ◌&&◌, ◌||◌, List, [], ◌∷◌, Option, none, some, any, ◌==◌, leb,
  if◌then◌else◌,
}
use rpsl.Lexer.Text.{Bytes}
use rpsl.Object.Sets.{NamedSet, Claimed, ClaimObject, route, route6}
use rpsl.Resolve.Claims.{asn_decodes, claimant, claim_allowed, equal_fold_ascii, names}
use rpsl.Resolve.Expand.{Source, Fetched, fetched, fetch_failed, not_found}
use rpsl.Types.AddrFamily.{Afi, afi_v4, afi_v6}
use rpsl.Types.Netip.{Prefix}
use rpsl.Types.SetName.{SetName, text_eq, name_eq}
use rpsl.Types.SetRef
use rpsl.Types.SetRef.{SetRef}

-- An object of the corpus: a set, or an object with the origin that it has if it is a route.
pub data CorpusObject : Type 0 where
  a_set : NamedSet → CorpusObject
  an_object : ℕ → ClaimObject → CorpusObject

-- `memSet`
pub record MemSet : Type 0 where
  pub set : NamedSet
  pub source : Bytes

-- What `NewMemSource` builds: the copies of a set with the winner first, the routes of an AS, and who
-- claims membership in a set.
pub record MemSource : Type 0 where
  pub sets : SetName → List MemSet
  pub routes : ℕ → List Prefix
  pub claims : Bytes → List ClaimObject

abbrev origin_attr : Bytes
origin_attr = b'o' ∷ b'r' ∷ b'i' ∷ b'g' ∷ b'i' ∷ b'n' ∷ []

-- `afiMatches`
unfoldable pub afi_matches : Afi → Prefix → Bool
afi_matches afi p = elim afi [ afi_v4 ↦ p.addr.is4 | afi_v6 ↦ not p.addr.is4 | _ ↦ true ]

unfoldable pub filter : {A : Type 0} → (A → Bool) → List A → List A
filter f [] = []
filter f (x ∷ xs) = let rest = filter f xs in if f x then x ∷ rest else rest

-- The first one that passes a test.
unfoldable pub find_first : (MemSet → Bool) → List MemSet → Option MemSet
find_first f [] = none
find_first f (c ∷ cs) = let rest = find_first f cs in if f c then some c else rest

-- `sort.SliceStable` by a rank.
unfoldable pub insert_copy : (MemSet → ℕ) → MemSet → List MemSet → List MemSet
insert_copy rank c [] = c ∷ []
insert_copy rank c (d ∷ ds) =
    let rest = insert_copy rank c ds in if leb (rank c) (rank d) then c ∷ d ∷ ds else d ∷ rest

unfoldable pub sort_copies : (MemSet → ℕ) → List MemSet → List MemSet
unfolding insert_copy
sort_copies rank [] = []
sort_copies rank (c ∷ cs) = insert_copy rank c (sort_copies rank cs)

module _ (trim_space to_upper : Bytes → Bytes) (dflt : Bytes → Bool) (precedence : List Bytes) where
  -- The rank of a source: its place in `sourcePrecedence`, or the length of that.
  unfoldable pub rank_in : List Bytes → Bytes → ℕ
  unfolding text_eq
  rank_in [] source = 0
  rank_in (p ∷ ps) source =
      let rest = rank_in ps source in if equal_fold_ascii source (trim_space p) then 0 else suc rest

  abbrev pub rank : MemSet → ℕ
  rank c = rank_in precedence c.source

  unfoldable pub admits : Bytes → Bool
  admits source = dflt (to_upper (trim_space source))

  -- `sets[n]` after the loop of `newMemSource`, in the order of loading.
  unfoldable pub loaded : List CorpusObject → SetName → List MemSet
  unfolding name_eq
  loaded [] n = []
  loaded (a_set set ∷ objs) n =
      let rest = loaded objs n in
      if name_eq set.name n
      then record { set = set; source = to_upper (trim_space set.source) } ∷ rest
      else rest
  loaded (an_object a o ∷ objs) n = loaded objs n

  -- `routeOf`, and the source of the object.
  unfoldable pub route_of : ClaimObject → ℕ → Option (Prefix × Bytes)
  unfolding asn_decodes
  route_of (route p c) origin =
      if p.is_valid && (not (origin == 0) || asn_decodes trim_space c.text origin_attr)
      then some (p, c.source)
      else none
  route_of (route6 p c) origin =
      if p.is_valid && (not (origin == 0) || asn_decodes trim_space c.text origin_attr)
      then some (p, c.source)
      else none
  route_of _ origin = none

  unfoldable pub routes_of_as : List CorpusObject → ℕ → List Prefix
  unfolding route_of admits
  routes_of_as [] a = []
  routes_of_as (a_set set ∷ objs) a = routes_of_as objs a
  routes_of_as (an_object origin o ∷ objs) a =
      let rest = routes_of_as objs a in
      elim (route_of o origin) [
        | none ↦ rest
        | some (p, source) ↦ if origin == a && admits source then p ∷ rest else rest
      ]

  -- `indexClaims`: under each set that a claimant names, once.
  unfoldable pub claims_on : List CorpusObject → Bytes → List ClaimObject
  unfolding claimant text_eq
  claims_on [] n = []
  claims_on (a_set set ∷ objs) n = claims_on objs n
  claims_on (an_object a o ∷ objs) n =
      let rest = claims_on objs n in
      elim (claimant trim_space o) [
        | none ↦ rest
        | some c ↦ if any (λ (m : SetName). text_eq m.canon n) c.member_of then o ∷ rest else rest
      ]

  -- `newMemSource` with `finish`.
  unfoldable pub new_mem_source : List CorpusObject → MemSource
  unfolding loaded routes_of_as claims_on sort_copies rank_in
  new_mem_source objs = record {
    sets = λ n. sort_copies rank (loaded objs n);
    routes = λ a. routes_of_as objs a;
    claims = λ n. claims_on objs n;
  }

  -- Whether a copy answers a reference.
  unfoldable pub answers : SetRef → MemSet → Bool
  unfolding text_eq admits
  answers r c = if SetRef.is_scoped r then text_eq c.source r.source else admits c.source

  abbrev found_copy : Option MemSet → Fetched (Option NamedSet)
  found_copy none = fetch_failed not_found
  found_copy (some c) = fetched (some c.set)

  unfoldable pub get_set : MemSource → SetRef → Fetched (Option NamedSet)
  unfolding find_first answers
  get_set s r = found_copy (find_first (answers r) (s.sets r.name))

  unfoldable pub originated_routes : MemSource → ℕ → Afi → Fetched (List Prefix)
  unfolding filter afi_matches
  originated_routes s a afi = fetched (filter (afi_matches afi) (s.routes a))

  unfoldable pub members_by_ref : MemSource → NamedSet → Fetched (List ClaimObject)
  unfolding filter claim_allowed
  members_by_ref s set =
      fetched (filter (λ o. claim_allowed trim_space o set) (s.claims set.name.canon))

  -- The Source of an expansion.
  unfoldable pub source_of : MemSource → Source
  unfolding get_set originated_routes members_by_ref
  source_of s = record {
    get_set = get_set s;
    members_by_ref = members_by_ref s;
    originated_routes = originated_routes s;
  }

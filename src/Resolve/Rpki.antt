-- ===== src/Resolve/Rpki.antt =====
-- resolve/rpki/rpki.go: the validated ROA payloads (VRPs), their index by exact prefix, and the
-- validation of a route's origin (RFC 6811). A nil *VRPs is `none`.
pub mod Index
pub mod Built
pub mod Scan
pub mod Origin
pub mod Filter
pub mod Keep
pub mod Suppress
use rpsl.Base.{
  ℕ, zero, suc, ◌+◌, Bool, true, false, not, ◌&&◌, ◌||◌, List, [], ◌∷◌, ◌++◌, length, Option, none,
  some, ◌==◌, ltb, leb, if◌then◌else◌,
}
use rpsl.Types.Netip.{Prefix, bit_len, masked}
use rpsl.Types.Netip.Equality.{prefix_eq}
use rpsl.Types.LenMask
use rpsl.Types.LenMask.{LenMask, has, set}

pub record Vrp : Type 0 where
  pub prefix : Prefix
  pub max_length : ℕ
  pub asn : ℕ
  pub ta : List ℕ

pub data State : Type 0 where
  not_found valid invalid : State

pub record Grant : Type 0 where
  pub max_length : ℕ
  pub asn : ℕ

-- The map of a family is the list of its keys with their grants; a key that is missing has none.
pub record Family : Type 0 where
  pub by_prefix : List (Prefix × List Grant)
  pub lengths : LenMask

pub record Vrps : Type 0 where
  pub all : List Vrp
  pub v4 : Family
  pub v6 : Family

abbrev pub no_family : Family
no_family = record { by_prefix = []; lengths = LenMask.empty }

unfoldable pub check : Vrp → Bool
check v =
    if not v.prefix.is_valid
    then false
    else if not (prefix_eq v.prefix (masked v.prefix))
    then false
    else not (ltb v.max_length v.prefix.len || ltb (bit_len v.prefix.addr) v.max_length)

unfoldable pub fam : Vrps → Prefix → Family
fam s p = if p.addr.is4 then s.v4 else s.v6

unfoldable pub find : List (Prefix × List Grant) → Prefix → List Grant
find [] q = []
find (kv ∷ m) q = elim (prefix_eq kv.0 q) [ true ↦ kv.1 | false ↦ find m q ]

-- `m[q] = append(m[q], g)`
unfoldable pub append_at : List (Prefix × List Grant) → Prefix → Grant → List (Prefix × List Grant)
append_at [] q g = (q, g ∷ []) ∷ []
append_at (kv ∷ m) q g = elim (prefix_eq kv.0 q) [
  | true ↦ (kv.0, kv.1 ++ g ∷ []) ∷ m
  | false ↦ kv ∷ append_at m q g
]

unfoldable pub add : Family → Vrp → Family
unfolding append_at
add f v = record {
  by_prefix = append_at f.by_prefix v.prefix (record { max_length = v.max_length; asn = v.asn });
  lengths = set f.lengths v.prefix.len;
}

-- `s.fam(v.Prefix).add(v)`
unfoldable pub add_vrp : Vrps → Vrp → Vrps
unfolding add
add_vrp s v =
    if v.prefix.addr.is4 then record s { v4 = add s.v4 v } else record s { v6 = add s.v6 v }

-- The loop of `indexVRPs`.
unfoldable pub index_loop : Vrps → List Vrp → Option Vrps
unfolding check add_vrp
index_loop s [] = some s
index_loop s (v ∷ vs) = elim (check v) [ false ↦ none | true ↦ index_loop (add_vrp s v) vs ]

unfoldable pub index_vrps : List Vrp → Option Vrps
unfolding index_loop
index_vrps vs = index_loop (record { all = vs; v4 = no_family; v6 = no_family }) vs

-- `NewVRPs` copies the list first.
unfoldable pub new_vrps : List Vrp → Option Vrps
unfolding index_vrps
new_vrps vs = index_vrps vs

-- The loop over the grants of one prefix: `none` once the route is found valid, and otherwise whether
-- it is covered.
unfoldable pub scan_grants : List Grant → ℕ → ℕ → Bool → Option Bool
scan_grants [] origin len covered = some covered
scan_grants (g ∷ gs) origin len covered =
    elim (not (g.asn == 0) && g.asn == origin && leb len g.max_length) [
      | true ↦ none
      | false ↦ scan_grants gs origin len true
    ]

-- The loop of `Validate` from the length `l` on, over `n` lengths. `p.Addr().Prefix(l)` is the address
-- cut to `l` bits.
unfoldable pub scan : Family → Prefix → ℕ → ℕ → ℕ → Bool → State
unfolding find scan_grants
scan f p origin zero l covered = if covered then invalid else not_found
scan f p origin (suc n) l covered = elim (has f.lengths l) [
  | false ↦ scan f p origin n (l + 1) covered
  | true ↦
      elim (scan_grants (find f.by_prefix (masked (record p { len = l }))) origin p.len covered) [
        | none ↦ valid
        | some c ↦ scan f p origin n (l + 1) c
      ]
]

unfoldable pub validate : Option Vrps → Prefix → ℕ → State
unfolding scan fam
validate none p origin = not_found
validate (some s) p origin =
    if not p.is_valid then not_found else scan (fam s p) p origin (p.len + 1) 0 false

unfoldable pub len : Option Vrps → ℕ
len none = 0
len (some s) = length s.all

-- `All` yields these, in this order, as long as it is asked for more.
unfoldable pub all_of : Option Vrps → List Vrp
all_of none = []
all_of (some s) = s.all

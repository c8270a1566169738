-- ===== src/Lib.antt =====
-- Verification of the rpsl library for Go: its exact sets of prefixes, its scanner of RPSL text,
-- and what the EXCEPT and REFINE of a routing policy mean, with the object model, the expansion of
-- sets to AS numbers and prefix ranges, its RPKI filter, and who may create a route.
--
-- The program. RPSL text is split by lexer/lexer.go into tokens whose raw bytes are a partition of
-- the source; ast/object.go makes of an object's tokens a lossless object that can be edited; the
-- layers above (object, policy) decode it into typed values. types/ holds the leaf values: prefixes
-- with a window of lengths (prefixrange.go), the operators ^-, ^+, ^n and ^n-m (rangeop.go),
-- address families (addrfamily.go), set names (setname.go), and exact sets of prefixes of both
-- families as binary tries (prefixspace.go, prefixspace_ops.go), on which the consistency checks of
-- resolve/consist rest. policy/ holds the tree of import and export policies (ast.go), of which
-- Flatten (flatten.go) makes, for one address family, the list of plain terms that resolve/peval
-- evaluates. resolve/ expands the sets that a policy names: expander.go fetches the sets that can
-- be reached from one, level by level, checks who may claim to be an indirect member (claims.go),
-- and walks the graph for AS numbers or prefix ranges, from a Source such as that in memory
-- (memsource.go); the range operators on the way to a member are a table (opstack.go), on which the
-- walk keys its states. resolve/rpki validates the origin of routes, as a filter before any source
-- of sets and routes. auth/ decides whose credentials may create an object.
--
-- The files.
--   Base                 names of the library passed on, tests on numbers, list functions, bits of words
--   Types/Netip          the values of net/netip that the code uses: a prefix has a flag for validity,
--                        an address as the list of its bits, and a length; and bitAt
--   Types/LenMask        lenMask: three 64-bit words, `has`, `set`, `isZero`, `and`, `or`, `andNot`,
--                        `lowest`, `geMask`, `window`, `one`
--   Types/SpaceNode      spaceNode: `mk`, `without`, `lift`, `normalize`, `merge`, `equalNode`,
--                        `subsetNode` and the loop of `Contains`; Insert has the loop of `SpaceOf`.
--                        Member, Normalize and Merge are about which prefixes a trie holds, Canonical, Preserve and
--                        CanonicalMerge about the canonical form, Unique about its uniqueness, Subset
--                        about inclusion
--   Types/PrefixSpace    PrefixSpace: `SpaceOf`, `FullSpace`, `Contains`, `Equal`, `IsEmpty`, `Union`,
--                        `Intersect`, `Minus`, `Subset`
--   Types/PrefixRange    PrefixRange and RangeOperator: `NewPrefixRange`, `Op`, `Contains`, `Intersect`,
--                        `ParseRangeOperator`, `Apply`
--   Types/AddrFamily     Afi, Safi, AddrFamily and `Covers`
--   Lexer                `TokenizeAt` as a fold of `step` over the lines; Lexer/Text has the functions
--                        on one line, Lexer/Lines has `scanLines`, Lexer/Partition the proof about raw
--                        texts and spans
--   Lexer/Position       `SourceAt` and `ValueWithComments`
--   Ast                  ast/object.go: Attribute, Object, `New`, `String` and the lookups; Edit has
--                        `Append`, `Set` and the Builder (ast/build.go). RoundTrip is about writing an
--                        object out, Replace and Trivia about what `Set` leaves, Build about the
--                        Builder. Items has `List` of ast/list.go, ItemSpans is about it
--   Types/SetName        SetName, its class, and `IsAny`; Parse has `ParseSetName` and `ParseSetRef`;
--                        Types/SetRef has types/setref.go and Types/Asn types/asn.go
--   Policy/Ast           the policy tree of policy/ast.go; Policy/AsPath has the trees of AS-path regular
--                        expressions (policy/regexp.go), Policy/Afi `afisApply` (policy/afi.go)
--   Policy/Flatten       policy/flatten.go: the flattener with its budget, `charge`, `andFilters`,
--                        `orFilters`, `filterSize`; Terms has `exceptTerms`, `refineTerms`,
--                        `intersectPeerings`, and the walk `flatten`. Matching is about what filters
--                        match, Loops about what the loops build and spend, Exception about EXCEPT,
--                        Refinement about REFINE, Budget, Size, Bounded and Enough about the budget
--   Object/Members       SetMember, `Ref` and `DirectMembers` of object/members.go and
--                        object/srcmembers.go; Object/Sets has the interfaces of sets (object/sets.go)
--   Resolve/Claims       resolve/claims.go: `ClaimAllowed`; Claimant and Honoured are about it
--   Resolve/MemSource    resolve/memsource.go: `NewMemSource`, `GetSet`, `OriginatedRoutes`,
--                        `MembersByRef`, less aut-nums, inet-rtrs and the index of peers; Sorted and
--                        Precedence are about `GetSet`
--   Resolve/Expand       resolve/expander.go: the limits, `nestedRefs`, `checkSet`, `fetchOne`, `claimsOf`.
--                        Discover has `discover`, Evaluate `walk` with `addRoutes` and `add`, Ranges
--                        `fetchRoutes`, `ExpandPrefixRanges` and `expandAS`, Peerings `ExpandPeerings`
--                        of resolve/expand_more.go. Outcome is about loops
--                        that may stop with an error; Reachable, Levels, Found and Top are about the
--                        search; States says what sets denote, and Adding, Walk, Evaluated and Denoted
--                        are about the walk; Numbers, Lookups, Nested, Transfer, Answer and Expansion
--                        compare both with the Source
--   Resolve/OpStack      resolve/opstack.go: the tables, `push` and `apply`. Entry and Invariant are about
--                        the tables, Compose about one operator, Path about a path of them
--   Resolve/Rpki         resolve/rpki/rpki.go: the index of VRPs, `NewVRPs`, `Validate`; Filter has
--                        resolve/rpki/filter.go. Index, Built, Scan and Origin are about validation, Keep
--                        and Suppress about the filter; Types/Netip/Equality has the test `==` on prefixes
--   Auth                 auth/auth.go: `CheckMntner`, `CheckMntners`; Referral has `ReferralChain`, Route
--                        auth/route.go with `RouteCreation` and `RouteAuthority`, Irt and IrtChange
--                        auth/irt.go with `CheckIrts` and `MntIrtChange`. Accepted, ReferralDepth,
--                        RouteSafety and Scope are about them
--   Types/AddrRange      `LastAddr` of types/addrrange.go
--   Tests                runs on concrete inputs and the theorems applied to them
--
-- State and errors. A pointer to a trie node is the node or `nil`; the code never changes a node
-- once it is built, but for the raw tries of `SpaceOf`, which are passed on from range to range.
-- Pointer equality, which `Equal` and `Subset` test first, is a parameter with the law that one
-- pointer has one value. The scanner's variables are the record `Folding`; the attribute in
-- progress is an `Option Pending`. A result with `ok` or with an error is an `Option`. The
-- flattener, with what it has spent and its error, is passed on from call to call; a loop that
-- stops early is a function from the flattener to `none` and the flattener. `Flatten` gives the
-- terms or the error. A nil interface is a constructor of its own.
--
-- Numbers and bounds. Go's `int` and the bytes of lengths are natural numbers, but for the limits
-- of an Expander, of which a negative one stands for no limit; lengths are at most 128 by
-- `IsPrefix` and `IsRange`, so that no addition on them wraps. A mask's words are below 2 ^ 64, and
-- complements are within the word. The recursion of `merge` is on the levels left, width - d, which
-- is what Go's test `d < width` bounds. The loop of `ReferralChain` has fuel for one maintainer
-- more than its limit, and ends before; that of `List` has fuel for one round more than the value
-- has bytes. `scan_from` has fuel: the number of bytes, of which each line takes at least one.
-- `flatten` is recursive on the expression; its limits of depth (1000) and of filter nodes (2 ^ 20)
-- are those of the code.
--
-- Not modelled: net/netip is represented by its documented values in Types/Netip. The capacity and
-- sharing of slices have no effect on values. The rendering of a peering (policy/strings.go), by
-- which `intersectPeerings` and the set of peerings compare peerings, is a parameter of
-- Policy/Flatten/Terms and Resolve/Expand/Peerings: any function of the peering.
-- `strings.TrimSpace`, which makes the comment of an attribute, is a parameter of Ast,
-- Resolve/Claims, Resolve/Expand and Resolve/MemSource: it knows the spaces of Unicode; so are
-- `TrimLeftFunc` and `TrimRightFunc` with `unicode.IsSpace` of Ast/Items, of which the theorem
-- there assumes that they do not make a text longer. The source behind the RPKI filter and its sets
-- are parameters of Resolve/Rpki/Filter; the Verifier, the Registry and the functions of the
-- package strings are those of Auth. The Source of an expansion is a parameter of Resolve/Expand:
-- what it answers does not change while the expansion runs. The context of an expansion is never
-- cancelled, the memo is not set, and concurrent fetches, whose results the code reads in order,
-- are one after the other. The text of an error, and which error of a Source it wraps, are not
-- modelled. An object is what auth/route.go reads of its class. The texts of values and of errors,
-- reading from files and the network, the parser of policies, and the rest of object, ast, auth and
-- resolve are left out.
pub mod Base
pub mod Types
pub mod Lexer
pub mod Ast
pub mod Policy
pub mod Object
pub mod Resolve
pub mod Auth
pub mod Tests

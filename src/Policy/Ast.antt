-- ===== src/Policy/Ast.antt =====
-- policy/ast.go: the tree of a routing policy. A nil interface is a constructor of its own
-- (`no_peering`, `no_filter`, `no_expr`), or an `Option` where the type is not recursive.
use rpsl.Base.{ℕ, Bool, Option, List}
use rpsl.Types.AddrFamily.{AddrFamily}
use rpsl.Types.Netip.{Addr}
use rpsl.Types.PrefixRange.{PrefixRange, RangeOperator}
use rpsl.Types.SetName.{SetName}
use rpsl.Policy.AsPath.{AsPathRe, SetNameTemplate}

pub data RouterOp : Type 0 where
  router_and router_or router_except : RouterOp

pub data RouterExpr : Type 0 where
  router_addr : Addr → RouterExpr
  router_name : List ℕ → RouterExpr
  router_set_ref : SetName → RouterExpr
  router_binary : RouterOp → RouterExpr → RouterExpr → RouterExpr

pub data AsOp : Type 0 where
  as_and as_or as_except : AsOp

pub data AsExpr : Type 0 where
  as_num : ℕ → AsExpr
  as_set_ref : SetName → AsExpr
  as_set_template : SetNameTemplate → AsExpr
  as_binary : AsOp → AsExpr → AsExpr → AsExpr

-- `peering_as` has the AS expression, then `Router` and `AtRouter`.
pub data Peering : Type 0 where
  no_peering : Peering
  peering_as : AsExpr → Option RouterExpr → Option RouterExpr → Peering
  peering_set_ref : SetName → Peering
  peering_regexp : List ℕ → Option AsPathRe → Peering

pub data ActionOp : Type 0 where
  action_assign action_append action_method : ActionOp

pub record Action : Type 0 where
  pub attr : List ℕ
  pub method : List ℕ
  pub op : ActionOp
  pub args : List (List ℕ)
  pub value : List ℕ
  pub raw : List ℕ

pub record PeerAction : Type 0 where
  pub via : Peering
  pub peering : Peering
  pub actions : List Action

pub data CommunityOp : Type 0 where
  community_contains community_equals : CommunityOp

mutual
  pub data Filter : Type 0 where
    no_filter : Filter
    filter_any : Filter
    filter_peer_as : RangeOperator → Filter
    filter_prefix_list : List PrefixRange → Filter
    filter_as_expr : AsExpr → RangeOperator → Filter
    filter_set_ref : SetName → RangeOperator → Filter
    filter_set_template : SetNameTemplate → RangeOperator → Filter
    filter_path_re : List ℕ → Option AsPathRe → Filter
    filter_community : CommunityOp → List (List ℕ) → List ℕ → Filter
    filter_and : Filters → Filter
    filter_or : Filters → Filter
    filter_not : Filter → Filter

  -- `[]Filter`
  pub data Filters : Type 0 where
    no_filters : Filters
    with_filter : Filter → Filters → Filters

mutual
  -- `expr_except` and `expr_refine` have the left and the right operand, `AFIs` and `MP`.
  pub data Expr : Type 0 where
    no_expr : Expr
    expr_factor : List PeerAction → Filter → Expr
    expr_list : Exprs → Expr
    expr_except : Expr → Expr → List AddrFamily → Bool → Expr
    expr_refine : Expr → Expr → List AddrFamily → Bool → Expr

  -- `[]Expr`
  pub data Exprs : Type 0 where
    no_exprs : Exprs
    with_expr : Expr → Exprs → Exprs

-- `Import`, and `Export`, which has the same fields.
pub record Import : Type 0 where
  pub protocol : List ℕ
  pub into_protocol : List ℕ
  pub mp : Bool
  pub afis : List AddrFamily
  pub expr : Expr

-- `append` of filters.
unfoldable pub append : Filters → Filters → Filters
append no_filters gs = gs
append (with_filter f fs) gs = with_filter f (append fs gs)

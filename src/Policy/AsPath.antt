-- ===== src/Policy/AsPath.antt =====
-- policy/regexp.go and policy/template.go: the tree of an AS-path regular expression, and set names
-- with a PeerAS component. An AS number is below 2 ^ 32; `max` is -1 in Go where it is `none` here.
use rpsl.Base.{ℕ, Bool, Option, List}
use rpsl.Types.SetName.{SetClass, SetName}

pub record SetNameTemplate : Type 0 where
  pub text : List ℕ
  pub set_class : SetClass

pub data RepeatOp : Type 0 where
  repeat_star repeat_plus repeat_quest repeat_range : RepeatOp

mutual
  pub data AsPathExpr : Type 0 where
    path_alt : AsPathExprs → AsPathExpr
    path_seq : AsPathExprs → AsPathExpr
    path_repeat : AsPathExpr → RepeatOp → ℕ → Option ℕ → Bool → AsPathExpr
    path_any : AsPathExpr
    path_asn : ℕ → AsPathExpr
    path_set : SetName → AsPathExpr
    path_set_template : SetNameTemplate → AsPathExpr
    path_peer_as : AsPathExpr
    path_start : AsPathExpr
    path_end : AsPathExpr
    path_class : Bool → AsPathExprs → AsPathExpr
    path_asn_range : ℕ → ℕ → AsPathExpr

  pub data AsPathExprs : Type 0 where
    no_path : AsPathExprs
    path_and : AsPathExpr → AsPathExprs → AsPathExprs

pub record AsPathRe : Type 0 where
  pub body : AsPathExpr

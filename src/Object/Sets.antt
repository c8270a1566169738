-- ===== src/Object/Sets.antt =====
-- object/sets.go, and of object/classes.go and object/peersets.go what the resolution reads: a set by
-- the interfaces that its class has, and an object by what it may claim. Attributes are decoded.
use rpsl.Base.{ℕ, List, Option}
use rpsl.Ast.{Object}
use rpsl.Lexer.Text.{Bytes}
use rpsl.Policy.Ast.{Peering}
use rpsl.Types.Netip.{Prefix}
use rpsl.Types.SetName.{SetName}
use rpsl.Object.Members.{SetMember}

pub data RtrMemberKind : Type 0 where
  rtr_member_invalid rtr_member_router rtr_member_set : RtrMemberKind

-- An address or a name of a router is not modelled.
pub record RtrSetMember : Type 0 where
  pub kind : RtrMemberKind
  pub set_name : SetName
  pub raw : Bytes

-- Which of the interfaces Set, RouterGroup and PeeringGroup a class has, with what its methods
-- return: members: with mp-members:, and src-members:; the routers; the peerings.
pub data Body : Type 0 where
  set_body : List SetMember → List SetMember → Body
  router_group : List RtrSetMember → Body
  peering_group : List Peering → Body
  other_body : Body

pub record NamedSet : Type 0 where
  pub class : Bytes
  pub name : SetName
  pub source : Bytes
  pub ref_mntners : List Bytes
  pub body : Body

-- What an object of a class that can claim membership holds for it, and its text.
pub record Claimed : Type 0 where
  pub member_of : List SetName
  pub mnt_by : List Bytes
  pub source : Bytes
  pub text : Option Object

pub data ClaimObject : Type 0 where
  nil_object other_object : ClaimObject
  aut_num : ℕ → Claimed → ClaimObject
  route route6 : Prefix → Claimed → ClaimObject
  inet_rtr : Claimed → ClaimObject

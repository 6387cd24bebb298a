-- ===== src/Router/Tree.antt =====
-- core/router.go: `node`, `kind`, `newNode` and the searches among a node's children. The `parent`
-- field is left out: no code reads it. Handlers and Echo instances are the values of two types.
use thinkgo.Base.{
  ℕ, Bool, true, false, ◌&&◌, Bytes, List, [], Option, none, some, ◌==◌, first, if◌then◌else◌,
}
use thinkgo.Router.Method.{MethodHandler, no_handlers}

pub data Kind : Type 0 where
  skind pkind mkind : Kind

abbrev pub same_kind : Kind → Kind → Bool
same_kind skind skind = true
same_kind pkind pkind = true
same_kind mkind mkind = true
same_kind _ _ = false

-- The fields of a node but its children. `echo` is `none` where the pointer is nil.
pub record Info (H E : Type 0) : Type 0 where
  pub kind : Kind
  pub label : ℕ
  pub prefix : Bytes
  pub ppath : Bytes
  pub pnames : List Bytes
  pub handlers : MethodHandler H
  pub echo : Option E

mutual
  pub data Node (H E : Type 0) : Type 0 where
    node : Info H E → Nodes H E → Node H E

  pub data Nodes (H E : Type 0) : Type 0 where
    nil : Nodes H E
    cons : Node H E → Nodes H E → Nodes H E

module _ {H E : Type 0} where
  abbrev pub info : Node H E → Info H E
  info (node i cs) = i

  abbrev pub children : Node H E → Nodes H E
  children (node i cs) = cs

  abbrev pub kind_of : Node H E → Kind
  kind_of n = (info n).kind

  abbrev pub label_of : Node H E → ℕ
  label_of n = (info n).label

  -- `newNode`, but for the children; no call passes an empty `pre`.
  abbrev pub new_info : Kind → Bytes → MethodHandler H → Bytes → List Bytes → Option E → Info H E
  new_info t pre m ppath pnames e = record {
    kind = t;
    label = first pre;
    prefix = pre;
    ppath = ppath;
    pnames = pnames;
    handlers = m;
    echo = e;
  }

  -- `addChild`
  unfoldable pub add_child : Nodes H E → Node H E → Nodes H E
  add_child nil n = cons n nil
  add_child (cons c cs) n = cons c (add_child cs n)

  -- `findChild`
  unfoldable pub find_child : ℕ → Kind → Nodes H E → Option (Node H E)
  find_child l t nil = none
  find_child l t (cons c cs) =
      if label_of c == l && same_kind (kind_of c) t then some c else find_child l t cs

  -- `findChildWithLabel`
  unfoldable pub find_child_with_label : ℕ → Nodes H E → Option (Node H E)
  find_child_with_label l nil = none
  find_child_with_label l (cons c cs) =
      if label_of c == l then some c else find_child_with_label l cs

  -- `findChildByKind`
  unfoldable pub find_child_by_kind : Kind → Nodes H E → Option (Node H E)
  find_child_by_kind t nil = none
  find_child_by_kind t (cons c cs) =
      if same_kind (kind_of c) t then some c else find_child_by_kind t cs

-- The tree of `NewRouter`: one node with no prefix.
abbrev pub empty_info : {H E : Type 0} → Info H E
empty_info = record {
  kind = skind;
  label = 0;
  prefix = [];
  ppath = [];
  pnames = [];
  handlers = no_handlers;
  echo = none;
}

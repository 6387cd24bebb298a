-- ===== src/Router/Insert.antt =====
-- core/router.go: `Router.insert` and `Router.Add`.
use thinkgo.Base.{
  ℕ, ◌==◌, ltb, if◌then◌else◌, Bytes, List, [], ◌∷◌, ◌++◌, Option, none, some, length, take, drop,
  codes, first, lcp,
}
use thinkgo.Router.Method.{Method, no_handlers, add_handler}
use thinkgo.Router.Tree.{
  Kind, skind, pkind, mkind, Info, Node, Nodes, node, nil, cons, label_of, new_info, add_child,
  empty_info,
}

-- The arguments of a call of `insert`; `handler` is `none` where `h` is nil.
pub record Write (H E : Type 0) : Type 0 where
  pub method : Method
  pub path : Bytes
  pub handler : Option H
  pub kind : Kind
  pub ppath : Bytes
  pub pnames : List Bytes
  pub echo : E

-- The tree, and the counter behind the pointer `maxParam` that all Echo instances share.
pub record Router (H E : Type 0) : Type 0 where
  pub tree : Node H E
  pub max_param : ℕ

-- `NewRouter`, with `new(int)` for the counter
abbrev pub new_router : {H E : Type 0} → Router H E
new_router = record { tree = node empty_info nil; max_param = 0 }

module _ {H E : Type 0} (w : Write H E) where
  -- `newNode(t, search, cn, nil, new(methodHandler), ppath, pnames, e)` with `n.addHandler(method, h)`
  abbrev pub leaf : Bytes → Node H E
  leaf search =
      node
        (new_info w.kind search (add_handler w.method w.handler no_handlers) w.ppath w.pnames
          (some w.echo))
        nil

  -- "At root node"
  unfoldable pub write_root : Bytes → Info H E → Info H E
  write_root search i = elim w.handler [
    | none ↦ record i { label = first search; prefix = search }
    | some h ↦ record {
      kind = w.kind;
      label = first search;
      prefix = search;
      ppath = w.ppath;
      pnames = w.pnames;
      handlers = add_handler w.method (some h) i.handlers;
      echo = some w.echo;
    }
  ]

  -- "Split node", at the length `l` of the common prefix
  unfoldable pub split : Bytes → ℕ → Info H E → Nodes H E → Node H E
  unfolding add_child
  split search l i cs =
      let n = node (new_info i.kind (drop l i.prefix) i.handlers i.ppath i.pnames i.echo) cs in
      let parent : Info H E = record {
        kind = skind;
        label = first i.prefix;
        prefix = take l i.prefix;
        ppath = [];
        pnames = [];
        handlers = no_handlers;
        echo = none;
      } in
      let with_n = add_child nil n in
      if l == length search
      then node
          (record parent {
            kind = w.kind;
            handlers = add_handler w.method w.handler no_handlers;
            ppath = w.ppath;
            pnames = w.pnames;
            echo = some w.echo;
          })
          with_n
      else node parent (add_child with_n (leaf (drop l search)))

  -- "Node already exists"; the node's `ppath` becomes the path that `insert` was called with.
  unfoldable pub overwrite : Info H E → Info H E
  overwrite i = elim w.handler [
    | none ↦ i
    | some h ↦ record i {
      handlers = add_handler w.method (some h) i.handlers;
      ppath = w.path;
      pnames = w.pnames;
      echo = some w.echo;
    }
  ]

  -- The loop of `insert`, from node `cn`: `insert_below` is `findChildWithLabel` with the round that
  -- follows it on the child, or with the new child where there is none.
  unfoldable mutual
    pub insert_node : Bytes → Node H E → Node H E
    insert_node search (node i cs) =
        let l = lcp search i.prefix in
        let deeper = node i (insert_below (drop l search) cs) in
        if l == 0
        then node (write_root search i) cs
        else if ltb l (length i.prefix)
        then split search l i cs
        else if ltb l (length search)
        then deeper
        else node (overwrite i) cs

    pub insert_below : Bytes → Nodes H E → Nodes H E
    insert_below search nil = cons (leaf search) nil
    insert_below search (cons c cs) =
        let here = cons (insert_node search c) cs in
        let later = cons c (insert_below search cs) in
        if label_of c == first search then here else later

  -- `insert`: `none` is the panic of `search[0]` on an empty path.
  unfoldable pub insert : Router H E → Option (Router H E)
  insert r = elim w.path [
    | [] ↦ none
    | _ ∷ _ ↦ some (record {
      tree = insert_node w.path r.tree;
      max_param = if ltb r.max_param (length w.pnames) then length w.pnames else r.max_param;
    })
  ]

infixl 5 ◌>>=◌
abbrev pub ◌>>=◌ {ℓ κ} : {A : Type ℓ} {B : Type κ} → Option A → (A → Option B) → Option B
none >>= f = none
some a >>= f = f a

-- The arguments of `Add`: `path` here is the pristine path, which becomes `ppath`.
pub record Registration (H E : Type 0) : Type 0 where
  pub method : Method
  pub path : Bytes
  pub handler : Option H
  pub echo : E

module _ {H E : Type 0} (a : Registration H E) where
  -- `r.insert(method, path, nil, skind, "", nil, e)`
  abbrev pub static_write : Bytes → Write H E
  static_write path = record {
    method = a.method;
    path = path;
    handler = none;
    kind = skind;
    ppath = [];
    pnames = [];
    echo = a.echo;
  }

  -- The calls that pass `ppath` and `pnames` on.
  abbrev pub route_write : Bytes → Option H → Kind → List Bytes → Write H E
  route_write path h t pnames = record {
    method = a.method;
    path = path;
    handler = h;
    kind = t;
    ppath = a.path;
    pnames = pnames;
    echo = a.echo;
  }

  -- The loop of `Add`. `done` is `path[:i]`, from which the names of the parameters are gone, and the
  -- last argument is `path[i:]`. While a name is read, `name` holds what is read of it.
  unfoldable pub add_from :
      Option Bytes → Bytes → List Bytes → Bytes → Router H E → Option (Router H E)
  add_from none done pnames [] r = insert (route_write done a.handler skind pnames) r
  add_from none done pnames (c ∷ rest) r =
      let param =
        insert (static_write done) r >>= add_from (some []) (done ++ c ∷ []) pnames rest in
      let further = add_from none (done ++ c ∷ []) pnames rest r in
      if c == b':'
      then param
      else if c == b'*'
      then insert (static_write done) r
        >>= insert (route_write (done ++ c ∷ []) a.handler mkind (pnames ++ codes "_*" ∷ []))
      else further
  add_from (some name) done pnames [] r =
      insert (route_write done a.handler pkind (pnames ++ name ∷ [])) r
  add_from (some name) done pnames (c ∷ rest) r =
      let closed =
        insert (route_write done none pkind (pnames ++ name ∷ [])) r
        >>= add_from none (done ++ c ∷ []) (pnames ++ name ∷ []) rest in
      let longer = add_from (some (name ++ c ∷ [])) done pnames rest r in
      if c == b'/' then closed else longer

  -- `Add`
  unfoldable pub add : Router H E → Option (Router H E)
  unfolding add_from
  add r = add_from none [] [] a.path r

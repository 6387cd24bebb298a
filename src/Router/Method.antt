-- ===== src/Router/Method.antt =====
-- core/router.go: `methodHandler`, `addHandler`, `findHandler` and the tests of `check405`. A method
-- is the string that the switches compare with nine constants; any other string is `other`.
use thinkgo.Base.{Bool, true, false, List, [], ◌∷◌, Option, none, some, Bytes, equal}

pub data Method : Type 0 where
  connect delete get head options patch post put trace : Method
  other : Bytes → Method

-- `methods`, in the order of core/echo.go.
abbrev pub methods : List Method
methods = connect ∷ delete ∷ get ∷ head ∷ options ∷ patch ∷ post ∷ put ∷ trace ∷ []

unfoldable pub same : Method → Method → Bool
same connect connect = true
same delete delete = true
same get get = true
same head head = true
same options options = true
same patch patch = true
same post post = true
same put put = true
same trace trace = true
same (other a) (other b) = equal a b
same _ _ = false

-- A field is `none` where the Go field is nil.
pub record MethodHandler (H : Type 0) : Type 0 where
  pub connect_handler : Option H
  pub delete_handler : Option H
  pub get_handler : Option H
  pub head_handler : Option H
  pub options_handler : Option H
  pub patch_handler : Option H
  pub post_handler : Option H
  pub put_handler : Option H
  pub trace_handler : Option H

module _ {H : Type 0} where
  -- `new(methodHandler)`
  abbrev pub no_handlers : MethodHandler H
  no_handlers = record {
    connect_handler = none;
    delete_handler = none;
    get_handler = none;
    head_handler = none;
    options_handler = none;
    patch_handler = none;
    post_handler = none;
    put_handler = none;
    trace_handler = none;
  }

  -- `(*node).addHandler`, on the handlers of the node
  unfoldable pub add_handler : Method → Option H → MethodHandler H → MethodHandler H
  add_handler get h m = record m { get_handler = h }
  add_handler post h m = record m { post_handler = h }
  add_handler put h m = record m { put_handler = h }
  add_handler delete h m = record m { delete_handler = h }
  add_handler patch h m = record m { patch_handler = h }
  add_handler options h m = record m { options_handler = h }
  add_handler head h m = record m { head_handler = h }
  add_handler connect h m = record m { connect_handler = h }
  add_handler trace h m = record m { trace_handler = h }
  add_handler (other _) h m = m

  -- `(*node).findHandler`
  unfoldable pub find_handler : Method → MethodHandler H → Option H
  find_handler get m = m.get_handler
  find_handler post m = m.post_handler
  find_handler put m = m.put_handler
  find_handler delete m = m.delete_handler
  find_handler patch m = m.patch_handler
  find_handler options m = m.options_handler
  find_handler head m = m.head_handler
  find_handler connect m = m.connect_handler
  find_handler trace m = m.trace_handler
  find_handler (other _) m = none

  -- The loop of `check405`: does a method of the list have a handler?
  unfoldable pub any_handler : List Method → MethodHandler H → Bool
  any_handler [] m = false
  any_handler (k ∷ ks) m = elim (find_handler k m) [ none ↦ any_handler ks m | some _ ↦ true ]

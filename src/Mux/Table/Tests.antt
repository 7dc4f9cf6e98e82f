-- ===== src/Mux/Table/Tests.antt =====
-- A tree and the path without its last slash, registered in either order.
use srv_app.Base.{◌≡◌, refl, true, Text, codes, text_eq, ok, is_ok, value_or, ok-value_or}
use srv_app.Dict.{lookup, insert, IsMap}
use srv_app.Mux.{
  func, UriHandler, XMux, new_xmux, find, handle, ends_slash, starts_slash, is_explicit,
  add_entries, drop_last,
}
use srv_app.Mux.Table.{table}
use srv_app.Mux.Table.Order.{register_order}

program : Unit {0}
unfolding lookup insert handle drop_last add_entries is_explicit ends_slash starts_slash text_eq
    new_xmux
program = tt

abbrev get : Text
get = codes "GET"

abbrev tree : UriHandler
tree = record { method = get; handler = func 7; pattern = codes "/tree/"; required_access = 2 }

abbrev bare : UriHandler
bare = record { method = get; handler = func 8; pattern = codes "/tree"; required_access = 0 }

abbrev as_is : Text → Text
as_is p = p

abbrev a : XMux
a = value_or new_xmux (handle as_is new_xmux tree)

abbrev b : XMux
b = value_or new_xmux (handle as_is a bare)

first_returns : is_ok (handle as_is new_xmux tree) ≡ true
unfolding program
first_returns = refl

second_returns : is_ok (handle as_is a bare) ≡ true
unfolding program
second_returns = refl

register_order_example :
    (a' : XMux) × (b' : XMux) × (handle as_is new_xmux bare ≡ ok a')
    × (handle as_is a' tree ≡ ok b')
    × ((h : IsMap b.m) × (h' : IsMap b'.m) × (table b h ≡ table b' h'))
    × ((host method path : Text) → find b host method path ≡ find b' host method path)
register_order_example =
    register_order as_is new_xmux a b tree bare (unfold new_xmux in tt)
      (ok-value_or new_xmux (handle as_is new_xmux tree) first_returns)
      (ok-value_or new_xmux (handle as_is a bare) second_returns)

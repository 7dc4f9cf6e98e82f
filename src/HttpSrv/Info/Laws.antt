-- ===== src/HttpSrv/Info/Laws.antt =====
-- What is reported of a server, and what a shutdown closes.
use srv_app.Base.{
  ℕ, ◌+◌, ◌≡◌, refl, ap, ◌∙◌, Bool, true, false, ◌&&◌, List, [], ◌∷◌, Text, arith, if◌then◌else◌,
}
use mathlib.Core.List.{Permᴰ}
use srv_app.Dict.{keys}
use srv_app.Sorting.Order.{is_sorted, sort_strings-is_sorted, sort_strings-perm, perm-sort_strings}
use srv_app.HttpSrv.{HttpSrv, Side}
use srv_app.HttpSrv.Accept.{Listener, close}
use srv_app.HttpSrv.Info.{
  SubnetInfo, get_net_info, subnet_info, get_srv_addrs, shutdown, close_listeners,
}

-- The listeners that are not closing.
abbrev pub open_count : List (Text × Listener) → ℕ
open_count [] = 0
open_count ((k, ln) ∷ l) = (if ln.closing then 0 else 1) + open_count l

abbrev pub is_all_closing : List (Text × Listener) → Bool
is_all_closing [] = true
is_all_closing ((k, ln) ∷ l) = ln.closing && is_all_closing l

close_closing : (ln : Listener) (b : Bool) → ln.closing ≡ true → close ln b ≡ (ln, (0, false))
unfolding close
close_closing ln b h = ground arith

module _ (closes : Text → Bool) where
  close_listeners_lem :
      (l : List (Text × Listener))
      → (is_all_closing (close_listeners closes l).0 ≡ true)
        × ((close_listeners closes l).1 ≡ open_count l)
        × (keys (close_listeners closes l).0 ≡ keys l)
  unfolding close_listeners close
  close_listeners_lem [] = (refl, refl, refl)
  close_listeners_lem ((k, ln) ∷ l) =
      let (closed, count, same) = close_listeners_lem l in
      (ground arith, ground arith, ap (◌∷◌ k) same)

  close_listeners_closed :
      (l : List (Text × Listener)) → is_all_closing l ≡ true → close_listeners closes l ≡ (l, 0)
  unfolding close_listeners close
  close_listeners_closed [] h = refl
  close_listeners_closed ((k, ln) ∷ l) h =
      let closing : ln.closing ≡ true = ground arith in
      let rest = close_listeners closes l in
      ap (λ (c : Listener × (ℕ × Bool)). ((k, c.0) ∷ rest.0, c.1.0 + rest.1))
        (close_closing ln (closes k) closing)
      ∙ ap (λ (r : List (Text × Listener) × ℕ). ((k, ln) ∷ r.0, 0 + r.1))
          (close_listeners_closed l (ground arith))

-- `Shutdown` leaves every listener of both sides closing, and closes the one below of each listener
-- that was open, once. It changes no address that is reported; and a second one closes nothing and
-- changes nothing.
pub shutdown_lem :
    (closes closes' : Text → Bool) (srv : HttpSrv)
    → let (down, n) = shutdown closes srv in
      (is_all_closing down.private_side.listeners ≡ true)
      × (is_all_closing down.public_side.listeners ≡ true)
      × (n ≡ open_count srv.private_side.listeners + open_count srv.public_side.listeners)
      × (get_srv_addrs down ≡ get_srv_addrs srv)
      × (shutdown closes' down ≡ (down, 0))
unfolding shutdown get_srv_addrs
shutdown_lem closes closes' srv =
    let (closed, count, same) = close_listeners_lem closes srv.private_side.listeners in
    let (closed', count', same') = close_listeners_lem closes srv.public_side.listeners in
    (
      closed,
      closed',
      ground arith,
      rw (same, same') refl,
      rw (close_listeners_closed closes' _ closed, close_listeners_closed closes' _ closed') refl,
    )

-- The lists are sorted, and have the keys of the side's maps.
abbrev pub IsInfoOf : Side → SubnetInfo → Type 0
IsInfoOf side info =
    (is_sorted info.servers ≡ true)
    × (is_sorted info.handlers ≡ true)
    × Permᴰ (keys side.listeners) info.servers
    × Permᴰ (keys side.handlers) info.handlers

pub subnet_info-IsInfoOf : (side : Side) → IsInfoOf side (subnet_info side)
unfolding subnet_info
subnet_info-IsInfoOf side = (
  sort_strings-is_sorted (keys side.listeners),
  sort_strings-is_sorted (keys side.handlers),
  perm-sort_strings (keys side.listeners),
  perm-sort_strings (keys side.handlers),
)

-- What `getNetInfo` reports of two servers is the same if their tables and listeners have the same
-- keys, in whatever order the maps are read; and each of its lists is sorted and has the keys of its
-- map, each as often as there.
get_net_info_order :
    (srv srv' : HttpSrv)
    → Permᴰ (keys srv.private_side.listeners) (keys srv'.private_side.listeners)
    → Permᴰ (keys srv.private_side.handlers) (keys srv'.private_side.handlers)
    → Permᴰ (keys srv.public_side.listeners) (keys srv'.public_side.listeners)
    → Permᴰ (keys srv.public_side.handlers) (keys srv'.public_side.handlers)
    → (get_net_info srv ≡ get_net_info srv')
      × IsInfoOf srv.private_side (get_net_info srv).private_info
      × IsInfoOf srv.public_side (get_net_info srv).public_info
unfolding get_net_info subnet_info
get_net_info_order srv srv' p q p' q' = (
  rw (sort_strings-perm p, sort_strings-perm q, sort_strings-perm p', sort_strings-perm q') refl,
  subnet_info-IsInfoOf srv.private_side,
  subnet_info-IsInfoOf srv.public_side,
)

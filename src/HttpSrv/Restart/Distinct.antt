-- ===== src/HttpSrv/Restart/Distinct.antt =====
-- A restart loses no listener and has one per address.
use srv_app.Base.{Bool, true, List, [], ◌∷◌, Option, none, some, Text, ◌≡◌, arith, All, length, ◌+◌}
use srv_app.Dict.{delete, IsMap}
use srv_app.Dict.Laws.{insert-IsMap}
use srv_app.HttpSrv.Accept.{Listener, TlsConfig, listen, close}
use srv_app.HttpSrv.Restart.{Wanted, shut_down, start, rebind, Sockets, start_one}
use srv_app.HttpSrv.Restart.Laws.{shut_down_lem}

start_one-IsMap :
    (o : Option Listener) (k : Text) (l : List (Text × Listener))
    → IsMap l
    → IsMap (start_one o k l)
start_one-IsMap none k l h = h
start_one-IsMap (some ln) k l h = insert-IsMap k ln l h

start-IsMap :
    (bound : Text → Bool) (cfg : Option TlsConfig) (l : List (Text × Text))
    (listeners : List (Text × Listener))
    → IsMap listeners
    → IsMap (start bound cfg l listeners)
unfolding start
start-IsMap bound cfg [] listeners h = h
start-IsMap bound cfg ((i, addr) ∷ l) listeners h =
    start-IsMap bound cfg l (start_one (listen (bound addr) addr cfg) addr listeners)
      (start_one-IsMap (listen (bound addr) addr cfg) addr listeners h)

shut_down-IsMap :
    (closes : Text → Bool) (w : Wanted) (l : List (Text × Listener))
    → IsMap l
    → IsMap (shut_down closes w l).listeners
unfolding shut_down
shut_down-IsMap closes w [] h = tt
shut_down-IsMap closes w ((j, ln) ∷ l) (fresh, h) = ground (
  arith,
  shut_down-IsMap closes (record w { http = delete j w.http }) l h,
  shut_down-IsMap closes (record w { tls = delete j w.tls }) l h,
  shut_down-IsMap closes w l h,
  shut_down_lem closes (record w { http = delete j w.http }) l j h,
  shut_down_lem closes (record w { tls = delete j w.tls }) l j h,
)

-- A restart of a side that has one listener per address leaves it with one per address.
rebind-IsMap :
    (sys : Sockets) (cfg : Option TlsConfig) (w : Wanted) (listeners : List (Text × Listener))
    → IsMap listeners
    → IsMap (rebind sys cfg w listeners)
unfolding rebind
rebind-IsMap sys cfg w listeners h =
    let r = shut_down sys.closes w listeners in
    start-IsMap sys.binds_tls cfg r.wanted.tls (start sys.binds_http none r.wanted.http r.listeners)
      (start-IsMap sys.binds_http none r.wanted.http r.listeners
        (shut_down-IsMap sys.closes w listeners h))

-- The loop over the old listeners keeps or closes each of them, and marks those that it closes.
shut_down-length :
    (closes : Text → Bool) (w : Wanted) (l : List (Text × Listener))
    → let r = shut_down closes w l in
      (length r.listeners + length r.closed ≡ length l)
      × All (λ (ln : Listener). ln.closing ≡ true) r.closed
unfolding shut_down close
shut_down-length closes w [] = ground arith
shut_down-length closes w ((j, ln) ∷ l) = ground (
  arith,
  shut_down-length closes (record w { http = delete j w.http }) l,
  shut_down-length closes (record w { tls = delete j w.tls }) l,
  shut_down-length closes w l,
)

-- ===== src/HttpSrv/Restart/Laws.antt =====
-- Which listeners a side has after a restart.
use srv_app.Base.{
  Bool, true, false, ◌&&◌, ◌||◌, not, List, [], ◌∷◌, Option, none, some, Text, if◌then◌else◌, ◌≡◌,
  arith, text_eq, text_eq_iff, Bool-cases, inl, inr, All, ◌⊎◌,
}
use srv_app.Dict.{lookup, delete, member, IsMap}
use srv_app.Dict.Laws.{lookup-insert, lookup-delete}
use srv_app.HttpSrv.Accept.{Listener, TlsConfig, listen}
use srv_app.HttpSrv.Restart.{Wanted, shut_down, start, rebind, Sockets, start_one}

-- The key of an entry is its value.
abbrev pub AreSelf : List (Text × Text) → Type 0
AreSelf l = All (λ (e : Text × Text). e.0 ≡ e.1) l

lookup-start_one :
    (bound : Text → Bool) (cfg : Option TlsConfig) (addr : Text)
    (listeners : List (Text × Listener)) (k : Text)
    → lookup k (start_one (listen (bound addr) addr cfg) addr listeners) ≡ (
        if text_eq addr k && bound k
        then some (record { addr = k; closing = false; config = cfg })
        else lookup k listeners)
unfolding listen
lookup-start_one bound cfg addr listeners k = ground (
  arith,
  lookup-insert addr k (record { addr = addr; closing = false; config = cfg }) listeners,
  text_eq_iff addr k,
)

-- After the third or the fourth loop a listed address that could be bound has a new listener, and
-- any other has what it had.
start_lem :
    (bound : Text → Bool) (cfg : Option TlsConfig) (l : List (Text × Text))
    (listeners : List (Text × Listener)) (k : Text)
    → AreSelf l
    → lookup k (start bound cfg l listeners) ≡ (
        if member k l && bound k
        then some (record { addr = k; closing = false; config = cfg })
        else lookup k listeners)
unfolding start lookup
start_lem bound cfg [] listeners k h = ground arith
start_lem bound cfg ((i, addr) ∷ l) listeners k (same, h) = ground (
  arith,
  start_lem bound cfg l (start_one (listen (bound addr) addr cfg) addr listeners) k h,
  lookup-start_one bound cfg addr listeners k,
  text_eq_iff i k,
  text_eq_iff addr k,
)

pub shut_down_lem :
    (closes : Text → Bool) (w : Wanted) (l : List (Text × Listener)) (k : Text)
    → IsMap l
    → lookup k (shut_down closes w l).listeners
      ≡ (if member k w.http || member k w.tls then lookup k l else none)
unfolding shut_down lookup
shut_down_lem closes w [] k h = ground arith
shut_down_lem closes w ((j, ln) ∷ l) k (fresh, h) = ground (
  arith,
  shut_down_lem closes (record w { http = delete j w.http }) l k h,
  shut_down_lem closes (record w { tls = delete j w.tls }) l k h,
  shut_down_lem closes w l k h,
  lookup-delete j k w.http,
  lookup-delete j k w.tls,
  text_eq_iff j k,
)

-- An address with an old listener is not bound again.
shut_down_wanted :
    (closes : Text → Bool) (w : Wanted) (l : List (Text × Listener)) (k : Text)
    → IsMap l
    → let rest = (shut_down closes w l).wanted in
      (lookup k rest.http ≡ (if member k l then none else lookup k w.http))
      × (lookup k rest.tls ≡ (if member k l && not (member k w.http) then none else lookup k w.tls))
unfolding shut_down lookup
shut_down_wanted closes w [] k h = ground arith
shut_down_wanted closes w ((j, ln) ∷ l) k (fresh, h) = ground (
  arith,
  shut_down_wanted closes (record w { http = delete j w.http }) l k h,
  shut_down_wanted closes (record w { tls = delete j w.tls }) l k h,
  shut_down_wanted closes w l k h,
  lookup-delete j k w.http,
  lookup-delete j k w.tls,
  text_eq_iff j k,
)

delete-AreSelf : (j : Text) (l : List (Text × Text)) → AreSelf l → AreSelf (delete j l)
unfolding delete
delete-AreSelf j [] h = tt
delete-AreSelf j ((i, a) ∷ l) (same, h) = elim (Bool-cases (text_eq i j)) [
  | inl gone ↦ rw gone (delete-AreSelf j l h)
  | inr stays ↦ rw stays (same, delete-AreSelf j l h)
]

abbrev pub BothSelf : Wanted → Type 0
BothSelf w = AreSelf w.http × AreSelf w.tls

shut_down-AreSelf :
    (closes : Text → Bool) (w : Wanted) (l : List (Text × Listener))
    → BothSelf w
    → BothSelf (shut_down closes w l).wanted
unfolding shut_down
shut_down-AreSelf closes w [] h = h
shut_down-AreSelf closes w ((j, ln) ∷ l) (a, b) = elim (Bool-cases (member j w.http)) [
  | inl plain ↦ rw plain (
      shut_down-AreSelf closes (record w { http = delete j w.http }) l
        (delete-AreSelf j w.http a, b))
  | inr other ↦ elim (Bool-cases (member j w.tls)) [
    | inl tls ↦
        rw (other, tls)
          (shut_down-AreSelf closes (record w { tls = delete j w.tls }) l
            (a, delete-AreSelf j w.tls b))
    | inr unwanted ↦ rw (other, unwanted) (shut_down-AreSelf closes w l (a, b))
  ]
]

-- The listener of an address after a restart, if no address is wanted both with and without TLS: an
-- address that is not wanted has none; one that had a listener keeps that very listener, whatever
-- its configuration; and a new one has a listener exactly if it could be bound, with the
-- configuration of TLS if it is wanted with TLS and with none otherwise.
pub lookup-rebind :
    (sys : Sockets) (cfg : Option TlsConfig) (w : Wanted) (listeners : List (Text × Listener))
    (k : Text)
    → IsMap listeners
    → BothSelf w
    → member k w.http && member k w.tls ≡ false
    → lookup k (rebind sys cfg w listeners) ≡ (
        if not (member k w.http || member k w.tls)
        then none
        else if member k listeners
        then lookup k listeners
        else if member k w.tls
        then (if sys.binds_tls k
            then some (record { addr = k; closing = false; config = cfg })
            else none)
        else if sys.binds_http k
        then some (record { addr = k; closing = false; config = none })
        else none)
unfolding rebind
lookup-rebind sys cfg w listeners k h self disjoint =
    let r = shut_down sys.closes w listeners in
    let (a, b) = shut_down-AreSelf sys.closes w listeners self in
    ground (
      arith,
      start_lem sys.binds_tls cfg r.wanted.tls (start sys.binds_http none r.wanted.http r.listeners)
          k b,
      start_lem sys.binds_http none r.wanted.http r.listeners k a,
      shut_down_lem sys.closes w listeners k h,
      shut_down_wanted sys.closes w listeners k h,
    )

-- With no assumption on the ports: what has a listener after a restart is wanted.
pub rebind-wanted :
    (sys : Sockets) (cfg : Option TlsConfig) (w : Wanted) (listeners : List (Text × Listener))
    (k : Text)
    → IsMap listeners
    → BothSelf w
    → member k (rebind sys cfg w listeners) ≡ true
    → (member k w.http ≡ true) ⊎ (member k w.tls ≡ true)
unfolding rebind
rebind-wanted sys cfg w listeners k h self found =
    let r = shut_down sys.closes w listeners in
    let (a, b) = shut_down-AreSelf sys.closes w listeners self in
    ground (
      arith,
      start_lem sys.binds_tls cfg r.wanted.tls (start sys.binds_http none r.wanted.http r.listeners)
          k b,
      start_lem sys.binds_http none r.wanted.http r.listeners k a,
      shut_down_lem sys.closes w listeners k h,
      shut_down_wanted sys.closes w listeners k h,
    )

-- What is wanted has a listener after a restart in which it can be bound.
pub rebind_complete :
    (sys : Sockets) (cfg : Option TlsConfig) (w : Wanted) (listeners : List (Text × Listener))
    (k : Text)
    → IsMap listeners
    → BothSelf w
    → (member k w.http ≡ true) ⊎ (member k w.tls ≡ true)
    → sys.binds_http k ≡ true
    → sys.binds_tls k ≡ true
    → member k (rebind sys cfg w listeners) ≡ true
unfolding rebind
rebind_complete sys cfg w listeners k h self wanted up up_tls =
    let r = shut_down sys.closes w listeners in
    let (a, b) = shut_down-AreSelf sys.closes w listeners self in
    ground (
      arith,
      start_lem sys.binds_tls cfg r.wanted.tls (start sys.binds_http none r.wanted.http r.listeners)
          k b,
      start_lem sys.binds_http none r.wanted.http r.listeners k a,
      shut_down_lem sys.closes w listeners k h,
      shut_down_wanted sys.closes w listeners k h,
    )

-- ===== src/HttpSrv/Accept.antt =====
-- net.go: `srvAppListener`, a listener that knows whether it is being closed.
use srv_app.Base.{
  ℕ, Bool, true, false, List, Option, none, some, Text, ◌≡◌, arith, if◌then◌else◌, not,
}

-- A `tls.Config` with certificates: the map from names to certificates, each named by a number.
abbrev pub TlsConfig : Type 0
TlsConfig = List (Text × ℕ)

-- `closing` stands for the flag that is 0 or 1.
pub record Listener : Type 0 where
  pub addr : Text
  pub closing : Bool
  pub config : Option TlsConfig

-- What `net.Listen` answers for the address: whether it is bound.
unfoldable pub listen : Bool → Text → Option TlsConfig → Option Listener
listen bound addr cfg =
    if bound then some (record { addr = addr; closing = false; config = cfg }) else none

-- A connection is named by a number.
pub data Accepted : Type 0 where
  failed : Accepted
  plain : ℕ → Accepted
  secured : ℕ → TlsConfig → Accepted

-- The connection, as it is or wrapped by `tls.Server`.
abbrev pub wrap : ℕ → Option TlsConfig → Accepted
wrap c none = plain c
wrap c (some cfg) = secured c cfg

-- `Accept`, on what the listener below accepts: the result, and whether an error is logged.
unfoldable pub accept : Listener → Option ℕ → Accepted × Bool
accept ln none = (failed, not ln.closing)
accept ln (some c) = (wrap c ln.config, false)

-- `Close`, on whether the listener below closes without an error: the listener, how often the one
-- below was closed, and whether an error is returned.
unfoldable pub close : Listener → Bool → Listener × (ℕ × Bool)
close ln closes =
    if ln.closing then (ln, (0, false)) else (record ln { closing = true }, (1, not closes))

-- Closing twice closes the listener below at most once, and the second call returns no error; it is
-- exactly once if the listener was open, and errors of `Accept` are logged no more.
close_twice :
    (ln : Listener) (closes closes' : Bool)
    → let (once, (n, err)) = close ln closes in
      let (twice, (n', err')) = close once closes' in
      (twice ≡ once)
      × (n ≡ (if ln.closing then 0 else 1))
      × (n' ≡ 0)
      × (err' ≡ false)
      × ((accept twice none).1 ≡ false)
unfolding close accept
close_twice ln closes closes' = ground arith

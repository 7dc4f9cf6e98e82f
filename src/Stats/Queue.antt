-- ===== src/Stats/Queue.antt =====
-- ipStats.go: the goroutines that `ipsLogStats` starts, and the one of `ipsInit` that receives their
-- events over the channel `ipsEvents`, which has no buffer, until the shutdown is signalled.
pub mod Accounts
pub mod Stopping
mod Tests
use srv_app.Base.{ℕ, ◌≡◌, Bool, true, false, List, [], ◌∷◌, ◌++◌, Text}
use srv_app.Geo.{GeoIpData}
use srv_app.Stats.{RequestLog, Ring, new_ring, take_event}

-- Where the goroutine of `ipsInit` stands: at its select, with an event that it has received and
-- not yet stored, or at its end.
pub data Consumer : Type 0 where
  selecting : Consumer
  received : RequestLog → Consumer
  returned : Consumer

-- `pending` has the events of the goroutines of `ipsLogStats` that wait at their select.
pub record Queue (G : Type 0) : Type 0 where
  pub pending : List RequestLog
  pub consumer : Consumer
  pub signalled : Bool
  pub geo : G
  pub ring : Ring RequestLog

abbrev pub new_queue : {G : Type 0} → ℕ → G → Queue G
new_queue n g = record {
  pending = [];
  consumer = selecting;
  signalled = false;
  geo = g;
  ring = new_ring n;
}

-- The body of the loop on an event.
abbrev pub stored : {G : Type 0} → (G → Text → G × GeoIpData) → RequestLog → Queue G → Queue G
stored resolve e q =
    let s = take_event resolve (q.geo, q.ring) e in
    record q { consumer = selecting; geo = s.0; ring = s.1 }

-- `ipsShutdown`: the signal. (The wait for the consumer, which gives up after a time, is left out.)
abbrev pub ips_shutdown : {G : Type 0} → Queue G → Queue G
ips_shutdown q = record q { signalled = true }

-- A step of one of the goroutines: a request is logged; an event is handed over; it is stored; an
-- event is given up on the signal or on the timeout of two seconds; the shutdown is signalled; the
-- consumer ends on the signal.
pub data Step {G : Type 0} (resolve : G → Text → G × GeoIpData) (q : Queue G)
    : Queue G → Type 0 where
  log : (e : RequestLog) → Step resolve q (record q { pending = q.pending ++ e ∷ [] })
  hand_over :
      (l r : List RequestLog) (e : RequestLog)
      → q.consumer ≡ selecting
      → q.pending ≡ l ++ e ∷ r
      → Step resolve q (record q { pending = l ++ r; consumer = received e })
  put : (e : RequestLog) → q.consumer ≡ received e → Step resolve q (stored resolve e q)
  give_up :
      (l r : List RequestLog) (e : RequestLog)
      → q.signalled ≡ true
      → q.pending ≡ l ++ e ∷ r
      → Step resolve q (record q { pending = l ++ r })
  time_out :
      (l r : List RequestLog) (e : RequestLog)
      → q.pending ≡ l ++ e ∷ r
      → Step resolve q (record q { pending = l ++ r })
  signal : Step resolve q (ips_shutdown q)
  stop :
      q.signalled ≡ true
      → q.consumer ≡ selecting
      → Step resolve q (record q { consumer = returned })

pub data Steps {G : Type 0} (resolve : G → Text → G × GeoIpData) (q : Queue G)
    : Queue G → Type 0 where
  done : Steps resolve q q
  next : {t u : Queue G} → Steps resolve q t → Step resolve t u → Steps resolve q u

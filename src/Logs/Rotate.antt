-- ===== src/Logs/Rotate.antt =====
-- log.go: `Rotate` and `FileLogBufferCap`, which visit a log once although several services hold it.
pub mod Once
pub mod Shared
use srv_app.Base.{
  ℕ, ◌+◌, Bool, true, false, not, List, [], ◌∷◌, Option, none, some, Text, ◌==◌, if◌then◌else◌,
  is_none, ◌||◌,
}
use srv_app.Logs.{SrvLog, LogService, Notifier, Store, service_at, update_at}

-- The map `rotated`: the old and the new address of every log that was rotated.
abbrev pub Rotated : Type 0
Rotated = List (ℕ × ℕ)

unfoldable pub new_address : ℕ → Rotated → Option ℕ
new_address a [] = none
new_address a ((b, new) ∷ m) = if b == a then some new else new_address a m

abbrev pub moved : Notifier → ℕ → Notifier
moved n new = record n { address = new }

-- What a loop leaves: the values, `rotated`, and whether it went on to its end.
pub record Round (A : Type 0) : Type 0 where
  pub value : A
  pub rotated : Rotated
  pub is_done : Bool

abbrev pub put_notifier : Notifier → Round (List Notifier) → Round (List Notifier)
put_notifier n r = record r { value = n ∷ r.value }

-- `rotate_log` is `flog.Rotate` on a log, after the rotations that there were: the address of the new
-- log, none where that is not a `BufferedLog`.
module _ (rotate_log : Rotated → ℕ → Option ℕ) where
  -- The loop over the notifiers of a service.
  unfoldable pub rotate_notifiers : Rotated → List Notifier → Round (List Notifier)
  rotate_notifiers rotated [] = record { value = []; rotated = rotated; is_done = true }
  rotate_notifiers rotated (n ∷ ns) = elim (n.is_buffered) [
    | false ↦ put_notifier n (rotate_notifiers rotated ns)
    | true ↦ elim (new_address n.address rotated) [
      | some new ↦ put_notifier (moved n new) (rotate_notifiers rotated ns)
      | none ↦ elim (rotate_log rotated n.address) [
        | none ↦ record { value = n ∷ ns; rotated = rotated; is_done = false }
        | some new ↦ put_notifier (moved n new) (rotate_notifiers ((n.address, new) ∷ rotated) ns)
      ]
    ]
  ]

  -- The loop over the services.
  unfoldable pub rotate_subs : Rotated → List (Text × ℕ) → Store → Round Store
  unfolding rotate_notifiers
  rotate_subs rotated [] s = record { value = s; rotated = rotated; is_done = true }
  rotate_subs rotated ((k, i) ∷ subs) s =
      let r = rotate_notifiers rotated (service_at s i).notifiers in
      let s' = update_at i (λ x. record x { notifiers = r.value }) s in
      elim (r.is_done) [
        | true ↦ rotate_subs r.rotated subs s'
        | false ↦ record { value = s'; rotated = r.rotated; is_done = false }
      ]

  -- The store, the logs that were rotated, and whether no error is returned.
  unfoldable pub rotate : SrvLog → Store → Round Store
  unfolding rotate_subs
  rotate l s = rotate_subs [] l.subs s

abbrev pub is_seen : ℕ → List ℕ → Bool
is_seen a [] = false
is_seen a (b ∷ l) = (b == a) || is_seen a l

-- `buffer_cap` is the method `BufferCap` of a log.
module _ (buffer_cap : ℕ → ℕ) where
  -- The loop over the notifiers: the logs that were seen, and the sum.
  unfoldable pub cap_of_notifiers : List ℕ × ℕ → List Notifier → List ℕ × ℕ
  cap_of_notifiers r [] = r
  cap_of_notifiers (seen, total) (n ∷ ns) =
      let next =
        if not n.is_buffered || is_seen n.address seen
        then (seen, total)
        else (n.address ∷ seen, total + buffer_cap n.address) in
      cap_of_notifiers next ns

  unfoldable pub cap_of_subs : List ℕ × ℕ → List (Text × ℕ) → Store → List ℕ × ℕ
  unfolding cap_of_notifiers
  cap_of_subs r [] s = r
  cap_of_subs r ((k, i) ∷ subs) s =
      cap_of_subs (cap_of_notifiers r (service_at s i).notifiers) subs s

  unfoldable pub file_log_buffer_cap : SrvLog → Store → ℕ
  unfolding cap_of_subs
  file_log_buffer_cap l s = (cap_of_subs ([], 0) l.subs s).1

-- ===== src/Stats/Queue/Stopping.antt =====
-- How the goroutines end once the shutdown is signalled.
use srv_app.Base.{◌≡◌, refl, subst, ◌∙◌, true, List, [], ◌∷◌, Text}
use srv_app.Geo.{GeoIpData}
use srv_app.Stats.{RequestLog}
use srv_app.Stats.Queue.{
  Queue, Consumer, selecting, received, returned, Step, log, hand_over, put, give_up, time_out,
  signal, stop, Steps, done, next,
}

module _ {G : Type 0} (resolve : G → Text → G × GeoIpData) where
  Steps-Steps : {q t u : Queue G} → Steps resolve q t → Steps resolve t u → Steps resolve q u
  Steps-Steps r done = r
  Steps-Steps r (next r' s) = next (Steps-Steps r r') s

  -- The pending events are given up one by one.
  drained :
      (l : List RequestLog) (q : Queue G)
      → q.pending ≡ l
      → q.signalled ≡ true
      → Steps resolve q (record q { pending = [] })
  drained [] q e w =
      subst (λ (l : List RequestLog). Steps resolve q (record q { pending = l })) e done
  drained (x ∷ l) q e w =
      Steps-Steps (next done (give_up [] l x w e)) (drained l (record q { pending = l }) refl w)

  ends :
      (c : Consumer) (q : Queue G)
      → q.consumer ≡ c
      → q.signalled ≡ true
      → (u : Queue G) × Steps resolve q u × (u.consumer ≡ returned) × (u.signalled ≡ true)
  ends selecting q e w = (_, next done (stop w e), refl, w)
  ends (received x) q e w = (_, next (next done (put x e)) (stop w refl), refl, w)
  ends returned q e w = (q, done, e, w)

  step_returned :
      {q u : Queue G}
      → Step resolve q u
      → q.consumer ≡ returned
      → (u.consumer ≡ returned) × (u.ring ≡ q.ring)
  step_returned (log e) h = (h, refl)
  step_returned (hand_over l r e w p) h = absurd (cc)
  step_returned (put e w) h = absurd (cc)
  step_returned (give_up l r e w p) h = (h, refl)
  step_returned (time_out l r e p) h = (h, refl)
  step_returned signal h = (h, refl)
  step_returned (stop w c) h = (refl, refl)

  -- The buffer is not written any more once the consumer has ended.
  pub steps_returned :
      {q u : Queue G}
      → Steps resolve q u
      → q.consumer ≡ returned
      → (u.consumer ≡ returned) × (u.ring ≡ q.ring)
  steps_returned done h = (h, refl)
  steps_returned (next r s) h =
      let (ended, same) = steps_returned r h in
      let (ended', same') = step_returned s ended in (ended', same' ∙ same)

  -- Once the shutdown is signalled, wherever the goroutines stand, they can all end: steps lead to a
  -- state in which the consumer has returned and no event is pending; and from there on nothing is
  -- written to the buffer, whatever is logged.
  pub signalled_ends :
      (q : Queue G)
      → q.signalled ≡ true
      → (u : Queue G) × Steps resolve q u
        × (u.consumer ≡ returned)
        × (u.pending ≡ [])
        × ((v : Queue G) → Steps resolve u v → v.ring ≡ u.ring)
  signalled_ends q w =
      let (t, r, ended, still) = ends q.consumer q refl w in
      let u = record t { pending = [] } in
      (
        u,
        Steps-Steps r (drained t.pending t refl still),
        ended,
        refl,
        λ v s. (steps_returned s ended).1,
      )

-- ===== src/Logs/Tests.antt =====
-- A logger on a buffer and a file.
use srv_app.Base.{
  ℕ, ◌≡◌, ◌≢◌, refl, true, false, List, [], ◌∷◌, Option, some, Text, codes, text_eq, text_eq_iff,
  arith, Memᴰ, All-mem, All, length, ◌+◌, ◌*◌, ◌/◌, ◌%◌, suc, ◌++◌,
}
use mathlib.Core.List.{Permᴰ}
use srv_app.Dict.{lookup, insert}
use srv_app.Logs.{
  Notifier, SrvLog, Store, add_log, new_srv_log, with_fields, copy_into, update_at,
  set_logs_enabled, close, info, service_at,
}
use srv_app.Sorting.{text_leb, sort_strings}
use srv_app.Logs.Fields.{append_fields, field_text, log_to}
use srv_app.Logs.Order.{append_fields_order}
use srv_app.Logs.Rotate.{Rotated, rotate, file_log_buffer_cap, new_address}
use srv_app.Logs.Rotate.Once.{Once}
use srv_app.Logs.Loop.{LogEvent, day, rotate_request, shut_down, log_loop}
use srv_app.Logs.Closing.{
  LogChans, new_log_chans, rotated, ask, pass_day, receive_request, close_logs, receive_close,
  reply, Steps, done, first, sending, returned, ended,
}
use srv_app.Logs.Closing.Ordered.{steps_log_loop}
use srv_app.Logs.Closing.Returns.{close_logs_returns}
use srv_app.Logs.Loop.Together.{HaveNotifiers, IsOf, log_loop_together}
use srv_app.Logs.Rotate.Shared.{rotate_shared, renamed_service, AreSeparate}

program : Unit {0}
unfolding add_log new_srv_log with_fields copy_into update_at set_logs_enabled close append_fields
    sort_strings text_leb field_text log_to rotate log_loop file_log_buffer_cap lookup insert
    text_eq new_address
program = tt

abbrev buffer : Notifier
buffer = record { address = 1; is_buffered = false; is_log_closer = false }

abbrev file : Notifier
file = record { address = 2; is_buffered = true; is_log_closer = true }

abbrev world : SrvLog × Store
world = new_srv_log buffer file []

abbrev name : Text
name = codes "name"

abbrev user : Text
user = codes "user"

abbrev fields : List (Text × Text)
fields = (user, codes "7") ∷ (name, codes "x") ∷ []

abbrev swapped : List (Text × Text)
swapped = (name, codes "x") ∷ (user, codes "7") ∷ []

-- The file log stands under all three names and is closed three times.
closed_thrice : close world.0 world.1 ≡ 2 ∷ 2 ∷ 2 ∷ []
unfolding program
closed_thrice = refl

cap_once : file_log_buffer_cap (λ a. 64) world.0 world.1 ≡ 64
unfolding program
cap_once = refl

message_test : append_fields fields (codes "hi") ≡ codes "hi name=x, user=7"
unfolding program
message_test = refl

logged_test :
    log_to 2 false true world.0 world.1 (with_fields fields world.0) info (codes "hi")
    ≡ some ((1, codes "hi name=x, user=7") ∷ (2, codes "hi name=x, user=7") ∷ [])
unfolding program
logged_test = refl

name_not_user : name ≢ user
name_not_user = ground arith

same_fields : (k : Text) → lookup k fields ≡ lookup k swapped
unfolding lookup
same_fields k = ground (arith, text_eq_iff name k, text_eq_iff user k, name_not_user)

append_fields_order_example : append_fields fields (codes "hi") ≡ append_fields swapped (codes "hi")
append_fields_order_example =
    append_fields_order fields swapped (codes "hi") (Permᴰ.swap refl refl) same_fields

-- Every rotation gives an address that was not there before.
abbrev next_log : Rotated → ℕ → Option ℕ
next_log m a = some (length m + 10)

rotated_test : (rotate next_log world.0 world.1).rotated ≡ (2, 10) ∷ []
unfolding program
rotated_test = refl

separate : AreSeparate world.0.subs
unfolding program
separate = ((refl, (refl, tt)), ((refl, tt), (tt, tt)))

rotate_done : (rotate next_log world.0 world.1).is_done ≡ true
unfolding program
rotate_done = refl

rotate_shared_example :
    let r = rotate next_log world.0 world.1 in
    Once r.rotated
    × ((e : Text × ℕ)
        → Memᴰ e world.0.subs
        → service_at r.value e.1 ≡ renamed_service r.rotated (service_at world.1 e.1))
rotate_shared_example = rotate_shared next_log world.0 world.1 separate rotate_done

-- A log of the n-th rotation has the digit of the old one behind the number of the rotation.
abbrev fresh_log : ℕ → Rotated → ℕ → ℕ
fresh_log n m a = 10 * suc n + a % 10

abbrev events : List LogEvent
events = day ∷ rotate_request ∷ shut_down ∷ []

loop_test :
    (log_loop (λ n m a. some (fresh_log n m a)) world.0 0 events world.1).1 ≡ 22 ∷ 22 ∷ 22 ∷ []
unfolding program
loop_test = refl

world_together : HaveNotifiers world.0 world.1 (buffer ∷ file ∷ [])
unfolding program
world_together e m =
    All-mem (λ (d : Text × ℕ). (service_at world.1 d.1).notifiers ≡ buffer ∷ file ∷ [])
      (refl, (refl, (refl, tt))) m

made_in : ℕ → ℕ
made_in a = a / 10

fresh_made_in : (n : ℕ) (m : Rotated) (a : ℕ) → made_in (fresh_log n m a) ≡ suc n
unfolding made_in
fresh_made_in n m a = omega arith

has_info : Memᴰ (info, 2) world.0.subs
unfolding program
has_info = Memᴰ.tail (Memᴰ.tail (Memᴰ.head refl))

first_logs : All (IsOf made_in 0) (buffer ∷ file ∷ [])
unfolding made_in
first_logs = ((λ e. absurd (cc)), ((λ e. refl), tt))

log_loop_together_example :
    let (s', closed) = log_loop (λ n m a. some (fresh_log n m a)) world.0 0 events world.1 in
    ((ns : List Notifier) × HaveNotifiers world.0 s' ns × All (IsOf made_in 2) ns × (length ns ≡ 2))
    × (closed ≡ close world.0 s')
log_loop_together_example =
    log_loop_together made_in fresh_log fresh_made_in world.0 separate (info, 2) has_info 0 2 events
      world.1 (buffer ∷ file ∷ [], world_together, first_logs, refl)

abbrev fresh : ℕ → Rotated → ℕ → Option ℕ
fresh n m a = some (fresh_log n m a)

abbrev opened : LogChans
opened = new_log_chans world.1

-- Two handlers ask, one of them is served, and the shutdown overtakes the other.
abbrev called : LogChans
called = record (rotated fresh world.0 (rotated fresh world.0 opened)) {
  closer = sending;
  requests = 1;
}

abbrev stopped : LogChans
stopped = record called {
  loop = ended;
  closer = returned;
  closed = close world.0 called.store ++ [];
}

abbrev to_called : Steps fresh world.0 opened called
to_called = first ask (
    first (pass_day refl)
      (first ask (first (receive_request 1 refl refl) (first (close_logs refl) done))))

abbrev to_stopped : Steps fresh world.0 opened stopped
to_stopped = first ask (
    first (pass_day refl) (
      first ask (
        first (receive_request 1 refl refl) (
          first (close_logs refl)
            (first (receive_close refl refl) (first (reply refl refl) done))))))

steps_log_loop_example :
    log_loop fresh world.0 0 events world.1 ≡ (called.store, close world.0 called.store ++ [])
steps_log_loop_example = steps_log_loop fresh world.0 world.1 stopped to_stopped

close_logs_returns_example :
    (v : LogChans) × Steps fresh world.0 called v
    × (v.closer ≡ returned)
    × (v.closed ≡ close world.0 called.store)
    × (v.requests ≡ called.requests)
    × (v.store ≡ called.store)
close_logs_returns_example =
    close_logs_returns fresh world.0 world.1 called to_called (λ e. ground arith)

-- ===== src/Life/Interrupt/Tests.antt =====
-- An application that is signalled and interrupted.
use srv_app.Base.{◌≡◌, refl, true, [], ◌∷◌}
use srv_app.Life.{new_app, start_singleton}
use srv_app.Life.Interrupt.{interrupt, signalled, catch_sig_int}

program : Unit {0}
unfolding new_app start_singleton catch_sig_int
program = tt

second_interrupt_ignored :
    catch_sig_int true (interrupt ∷ signalled 3 ∷ interrupt ∷ []) ≡ 0 ∷ 3 ∷ []
unfolding program
second_interrupt_ignored = refl

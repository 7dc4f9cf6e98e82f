-- ===== src/Life/Interrupt.antt =====
-- srvApp.go: `catchSigInt`, whose goroutine takes one interrupt and ends.
mod Tests
use srv_app.Base.{
  ℕ, ◌≡◌, refl, Bool, true, false, List, [], ◌∷◌, ◌++◌, Option, some, Memᴰ, ap, ◌∙◌, sym, arith,
}
use srv_app.Life.{App, Process, Action, complete, start_singleton, shutdown, run}
use srv_app.Life.Shutdown.{first_code, run_outcome}

-- An interrupt, or a call of `SignalShutdown` elsewhere with its code, in the order in which they take
-- effect.
pub data Event : Type 0 where
  interrupt : Event
  signalled : ℕ → Event

-- The codes that are signalled; `waits` says that the goroutine is at its select.
unfoldable pub catch_sig_int : Bool → List Event → List ℕ
catch_sig_int waits [] = []
catch_sig_int true (interrupt ∷ es) = 0 ∷ catch_sig_int false es
catch_sig_int false (interrupt ∷ es) = catch_sig_int false es
catch_sig_int waits (signalled c ∷ es) = c ∷ catch_sig_int waits es

-- The code of the first event.
abbrev pub code_of : List Event → ℕ
code_of (signalled c ∷ es) = c
code_of _ = 0

first_code-catch_sig_int :
    (es : List Event)
    → Memᴰ interrupt es
    → first_code true (catch_sig_int true es) ≡ some (code_of es)
unfolding catch_sig_int
first_code-catch_sig_int [] h = elim h [ ]
first_code-catch_sig_int (interrupt ∷ es) h = refl
first_code-catch_sig_int (signalled c ∷ es) h = refl

-- An application that could be started and is interrupted at some moment ends, after all of its
-- shutdown: with the code 0 if nothing was signalled before the interrupt, else with the first code
-- that was.
run_interrupted :
    (p : Process) (es : List Event) (app : App)
    → app.shutting_down ≡ false
    → (start_singleton p app).1 ≡ true
    → Memᴰ interrupt es
    → run p (catch_sig_int true es) app
      ≡ some (shutdown (start_singleton p app).0 ++ complete ∷ [], code_of es)
run_interrupted p es app h started m =
    run_outcome p (catch_sig_int true es) app h ∙ rw (started, first_code-catch_sig_int es m) refl

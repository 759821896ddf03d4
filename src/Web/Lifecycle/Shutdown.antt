-- ===== src/Web/Lifecycle/Shutdown.antt =====
-- What holds of the running server at every moment, and how it can be ended.
use git_bundle_server.Base.{ℕ, zero, suc, Bool, true, false, none, some, ◌≡◌, ◌≢◌, refl, arith}
use git_bundle_server.Web.Lifecycle.{
  MainPc, configured, announcing, announced, in_wait, finished, Serving, absent, listening,
  returned, Catcher, unset, expecting, caught, shutting_down, done_shutdown, status, ServerState,
  start_server_async, handle_signals_async, return_closed, call_shutdown, Step, start, announce,
  handle, finish, fail, close, request, answer, signal, kill, shutdown, drained, Steps, here, then,
  Reached,
}

abbrev pub count : Serving → ℕ
count absent = 0
count listening = 1
count returned = 0

-- Whether `Shutdown` was called, by where the catcher stands
abbrev pub is_called : Catcher → Bool
is_called unset = false
is_called expecting = false
is_called caught = false
is_called shutting_down = true
is_called done_shutdown = true

-- Whether the goroutines were started, by where `main` stands
abbrev pub Started : MainPc → Serving → Catcher → Type 0
Started configured s c = (s ≡ absent) × (c ≡ unset)
Started announcing s c = (s ≢ absent) × (c ≡ unset)
Started announced s c = (s ≢ absent) × (c ≡ unset)
Started in_wait s c = (s ≢ absent) × (c ≢ unset)
Started finished s c = (s ≡ returned) × (c ≢ unset)

pub record IsRunning (s : ServerState) : Type 0 where
  pub counted : s.server_wait_group ≡ count s.serving
  pub called : s.closing ≡ is_called s.catcher
  pub returned_called : s.serving ≡ returned → s.closing ≡ true
  pub started : Started s.main s.serving s.catcher
  pub ended_zero : s.ended ≡ some (status 0) → s.main ≡ finished
  pub finished_ended : s.main ≡ finished → s.ended ≡ some (status 0)

step-IsRunning : (s t : ServerState) → IsRunning s → Step s t → IsRunning t
unfolding start_server_async handle_signals_async return_closed call_shutdown
step-IsRunning s t h (start e p) =
    ground
      (arith, h.counted, h.called, h.returned_called, h.started, h.ended_zero, h.finished_ended)
step-IsRunning s t h (announce e p) =
    ground
      (arith, h.counted, h.called, h.returned_called, h.started, h.ended_zero, h.finished_ended)
step-IsRunning s t h (handle e p) =
    ground
      (arith, h.counted, h.called, h.returned_called, h.started, h.ended_zero, h.finished_ended)
step-IsRunning s t h (finish e p z) =
    ground
      (arith, h.counted, h.called, h.returned_called, h.started, h.ended_zero, h.finished_ended)
step-IsRunning s t h (fail e p) =
    ground
      (arith, h.counted, h.called, h.returned_called, h.started, h.ended_zero, h.finished_ended)
step-IsRunning s t h (close e p c) =
    ground
      (arith, h.counted, h.called, h.returned_called, h.started, h.ended_zero, h.finished_ended)
step-IsRunning s t h (request e p c) =
    ground
      (arith, h.counted, h.called, h.returned_called, h.started, h.ended_zero, h.finished_ended)
step-IsRunning s t h (answer n e p) =
    ground
      (arith, h.counted, h.called, h.returned_called, h.started, h.ended_zero, h.finished_ended)
step-IsRunning s t h (signal e p) =
    ground
      (arith, h.counted, h.called, h.returned_called, h.started, h.ended_zero, h.finished_ended)
step-IsRunning s t h (kill e p) =
    ground
      (arith, h.counted, h.called, h.returned_called, h.started, h.ended_zero, h.finished_ended)
step-IsRunning s t h (shutdown e p) =
    ground
      (arith, h.counted, h.called, h.returned_called, h.started, h.ended_zero, h.finished_ended)
step-IsRunning s t h (drained e p z) =
    ground
      (arith, h.counted, h.called, h.returned_called, h.started, h.ended_zero, h.finished_ended)

-- At every moment of every run the wait group counts the listening goroutine, `Shutdown` was called
-- exactly if the goroutine for signals has come that far, the listening goroutine has returned only
-- if it was called, and the process has ended with status 0 only if `main` came behind Wait, which
-- is after both.
pub Reached-IsRunning : (s : ServerState) → Reached s → IsRunning s
Reached-IsRunning s here = record {
  counted = refl;
  called = refl;
  returned_called = λ e. cc;
  started = (refl, refl);
  ended_zero = λ e. cc;
  finished_ended = λ e. cc;
}
Reached-IsRunning s (then {t = t} steps step) = step-IsRunning t s (Reached-IsRunning t steps) step

abbrev pub CanEnd : ServerState → Type 0
CanEnd s = (t : ServerState) × Steps s t × (t.ended ≡ some (status 0))

prepend : {s t u : ServerState} → Step s t → Steps t u → Steps s u
prepend step here = then here step
prepend step (then steps last) = then (prepend step steps) last

first_step : {s t : ServerState} → Step s t → CanEnd t → CanEnd s
first_step step (u, steps, e) = (u, prepend step steps, e)

returned-CanEnd :
    (s : ServerState)
    → IsRunning s
    → s.ended ≡ none
    → s.main ≡ in_wait
    → s.serving ≡ returned
    → CanEnd s
returned-CanEnd s h e m r = first_step (finish e m (ground (arith, h.counted, r))) (_, here, refl)

closing-CanEnd :
    (s : ServerState)
    → IsRunning s
    → s.ended ≡ none
    → s.main ≡ in_wait
    → s.closing ≡ true
    → CanEnd s
unfolding return_closed
closing-CanEnd s h e m c = split s.serving refl
  where
    split : (x : Serving) → s.serving ≡ x → CanEnd s
    split absent r = absurd (ground (arith, h.started, m, r))
    split listening r = first_step (close e r c) (
        returned-CanEnd (return_closed s) (step-IsRunning s (return_closed s) h (close e r c)) e m
          refl)
    split returned r = returned-CanEnd s h e m r

caught-CanEnd :
    (s : ServerState)
    → IsRunning s
    → s.ended ≡ none
    → s.main ≡ in_wait
    → s.catcher ≡ caught
    → CanEnd s
unfolding call_shutdown
caught-CanEnd s h e m c = first_step (shutdown e c) (
    closing-CanEnd (call_shutdown s) (step-IsRunning s (call_shutdown s) h (shutdown e c)) e m refl)

in_wait-CanEnd : (s : ServerState) → IsRunning s → s.ended ≡ none → s.main ≡ in_wait → CanEnd s
in_wait-CanEnd s h e m = split s.catcher refl
  where
    split : (x : Catcher) → s.catcher ≡ x → CanEnd s
    split unset c = absurd (ground (arith, h.started, m, c))
    split expecting c = first_step (signal e c) (
        caught-CanEnd (record s { catcher = caught })
          (step-IsRunning s (record s { catcher = caught }) h (signal e c)) e m refl)
    split caught c = caught-CanEnd s h e m c
    split shutting_down c = closing-CanEnd s h e m (ground (arith, h.called, c))
    split done_shutdown c = closing-CanEnd s h e m (ground (arith, h.called, c))

announced-CanEnd : (s : ServerState) → IsRunning s → s.ended ≡ none → s.main ≡ announced → CanEnd s
unfolding handle_signals_async
announced-CanEnd s h e m = first_step (handle e m) (
    in_wait-CanEnd (handle_signals_async s)
      (step-IsRunning s (handle_signals_async s) h (handle e m)) e refl)

announcing-CanEnd :
    (s : ServerState) → IsRunning s → s.ended ≡ none → s.main ≡ announcing → CanEnd s
announcing-CanEnd s h e m = first_step (announce e m) (
    announced-CanEnd (record s { main = announced })
      (step-IsRunning s (record s { main = announced }) h (announce e m)) e refl)

-- From every moment of every run in which the process has not ended, the run can go on so that the
-- process ends with status 0.
pub Reached-CanEnd : (s : ServerState) → Reached s → s.ended ≡ none → CanEnd s
unfolding start_server_async
Reached-CanEnd s r e = split s.main refl
  where
    running : IsRunning s
    running = Reached-IsRunning s r

    split : (x : MainPc) → s.main ≡ x → CanEnd s
    split configured m = first_step (start e m) (
        announcing-CanEnd (start_server_async s)
          (step-IsRunning s (start_server_async s) running (start e m)) e refl)
    split announcing m = announcing-CanEnd s running e m
    split announced m = announced-CanEnd s running e m
    split in_wait m = in_wait-CanEnd s running e m
    split finished m = absurd (ground (arith, running.finished_ended m, e))

-- In Wait, with the handler of signals set up and so many requests in work
abbrev busy : ℕ → ServerState
busy n = record {
  main = in_wait;
  serving = listening;
  catcher = expecting;
  server_wait_group = 1;
  closing = false;
  requests = n;
  ended = none;
}

busy-Reached : (n : ℕ) → Reached (busy n)
unfolding start_server_async handle_signals_async
busy-Reached zero =
    then (then (then here (start refl refl)) (announce refl refl)) (handle refl refl)
busy-Reached (suc n) = then (busy-Reached n) (request refl refl refl)

-- For any number of requests there is a run in which the process ends with status 0 while that many
-- are in work and `Shutdown`, which waits for them, has been called and has not come back.
pub ended_busy :
    (n : ℕ)
    → (s : ServerState) × Reached s
      × (s.ended ≡ some (status 0))
      × (s.requests ≡ n)
      × (s.catcher ≡ shutting_down)
unfolding return_closed call_shutdown
ended_busy n = (
  _,
  then
      (then (then (then (busy-Reached n) (signal refl refl)) (shutdown refl refl))
        (close refl refl refl))
      (finish refl refl refl),
  refl,
  refl,
  refl,
)

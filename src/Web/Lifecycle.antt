-- ===== src/Web/Lifecycle.antt =====
-- cmd/git-bundle-web-server: the goroutines of the server, from StartServerAsync over
-- HandleSignalsAsync to Wait and the end of `main`.
pub mod Shutdown
use git_bundle_server.Base.{ℕ, zero, suc, ◌-◌, Bool, true, false, Option, none, some, ◌≡◌}

-- Where `main` stands: before StartServerAsync, in its sleep, before HandleSignalsAsync, in Wait,
-- or behind it.
pub data MainPc : Type 0 where
  configured announcing announced in_wait finished : MainPc

-- The goroutine that listens and serves
pub data Serving : Type 0 where
  absent listening returned : Serving

-- The goroutine that receives from the channel of signals
pub data Catcher : Type 0 where
  unset expecting caught shutting_down done_shutdown : Catcher

-- How the process ends: with a status, or by a signal that nothing handles.
pub data Ending : Type 0 where
  status : ℕ → Ending
  killed : Ending

-- `bundleWebServer` as it runs. `closing` says that `Shutdown` was called.
pub record ServerState : Type 0 where
  pub main : MainPc
  pub serving : Serving
  pub catcher : Catcher
  pub server_wait_group : ℕ
  pub closing : Bool
  pub requests : ℕ
  pub ended : Option Ending

abbrev pub before_start : ServerState
before_start = record {
  main = configured;
  serving = absent;
  catcher = unset;
  server_wait_group = 0;
  closing = false;
  requests = 0;
  ended = none;
}

-- What `main` does next
unfoldable pub start_server_async : ServerState → ServerState
start_server_async s = record s {
  main = announcing;
  serving = listening;
  server_wait_group = suc s.server_wait_group;
}

unfoldable pub handle_signals_async : ServerState → ServerState
handle_signals_async s = record s { main = in_wait; catcher = expecting }

-- The listening goroutine behind `ErrServerClosed`, with its deferred `Done`
unfoldable pub return_closed : ServerState → ServerState
return_closed s = record s { serving = returned; server_wait_group = s.server_wait_group - 1 }

-- `b.server.Shutdown(ctx)`, which `ListenAndServe` answers at once
unfoldable pub call_shutdown : ServerState → ServerState
call_shutdown s = record s { catcher = shutting_down; closing = true }

-- One step of one goroutine, of a client, or of who sends the signals.
pub data Step (s : ServerState) : ServerState → Type 0 where
  start : s.ended ≡ none → s.main ≡ configured → Step s (start_server_async s)
  announce : s.ended ≡ none → s.main ≡ announcing → Step s (record s { main = announced })
  handle : s.ended ≡ none → s.main ≡ announced → Step s (handle_signals_async s)
  finish :
      s.ended ≡ none
      → s.main ≡ in_wait
      → s.server_wait_group ≡ 0
      → Step s (record s { main = finished; ended = some (status 0) })
  -- any other error than `ErrServerClosed` is fatal
  fail : s.ended ≡ none → s.serving ≡ listening → Step s (record s { ended = some (status 1) })
  close : s.ended ≡ none → s.serving ≡ listening → s.closing ≡ true → Step s (return_closed s)
  request :
      s.ended ≡ none
      → s.serving ≡ listening
      → s.closing ≡ false
      → Step s (record s { requests = suc s.requests })
  answer : (n : ℕ) → s.ended ≡ none → s.requests ≡ suc n → Step s (record s { requests = n })
  signal : s.ended ≡ none → s.catcher ≡ expecting → Step s (record s { catcher = caught })
  kill : s.ended ≡ none → s.catcher ≡ unset → Step s (record s { ended = some killed })
  shutdown : s.ended ≡ none → s.catcher ≡ caught → Step s (call_shutdown s)
  -- `Shutdown` comes back once there is no request left
  drained :
      s.ended ≡ none
      → s.catcher ≡ shutting_down
      → s.requests ≡ 0
      → Step s (record s { catcher = done_shutdown })

pub data Steps : ServerState → ServerState → Type 0 where
  here : {s : ServerState} → Steps s s
  then : {s t u : ServerState} → Steps s t → Step t u → Steps s u

abbrev pub Reached : ServerState → Type 0
Reached s = Steps before_start s

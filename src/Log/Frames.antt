-- ===== src/Log/Frames.antt =====
-- How a trace begins and ends.
use git_bundle_server.Base.{ℕ, Text, List, ◌∷◌, ◌++◌, some, int_Eq, ◌≡◌, refl, arith}
use git_bundle_server.Log.{
  Event, start, exit_event, atexit, Trace, Context, background, shared_fields, log_start, log_exit,
  MainEnd, returned, panicking, exited, finish, with_trace_logger,
}

-- The events behind a main function, by how it ended: it has added events, and if it has ended the
-- process, the last of them are those of the exit, in the session of the context.
abbrev pub Logged : Text → List (Text × Event) → MainEnd × Trace → Type 0
Logged sid before (returned, t) = (middle : List (Text × Event)) × (t.events ≡ middle ++ before)
Logged sid before (panicking p, t) = (middle : List (Text × Event)) × (t.events ≡ middle ++ before)
Logged sid before (exited code, t) =
    (middle : List (Text × Event)) × (t.events
      ≡ (sid, atexit code) ∷ (sid, exit_event code) ∷ (middle ++ before))

module _ (uuid : ℕ → Text) where
  -- The frame of a run with a status
  abbrev pub Framed : Text → List Text → List (Text × Event) → ℕ × Trace → Type 0
  Framed sid argv before r =
      (middle : List (Text × Event)) × (r.1.events
        ≡ (sid, atexit r.0) ∷ (sid, exit_event r.0) ∷ (middle ++ ((sid, start argv) ∷ before)))

  pub log_exit-events :
      (ctx : Context) (sid : Text) (code : ℕ) (t : Trace)
      → ctx.sid ≡ some sid
      → (log_exit uuid ctx code t).events ≡ (sid, atexit code) ∷ (sid, exit_event code) ∷ t.events
  unfolding log_exit shared_fields
  log_exit-events ctx sid code t h = ground (arith, h)

  finish-Framed :
      (ctx : Context) (sid : Text) (argv : List Text) (before : List (Text × Event))
      (r : MainEnd × Trace)
      → ctx.sid ≡ some sid
      → Logged sid ((sid, start argv) ∷ before) r
      → Framed sid argv before (finish uuid ctx r)
  finish-Framed ctx sid argv before (returned, t) h (middle, e) =
      (middle, ground (arith, log_exit-events ctx sid 0 t h, e))
  finish-Framed ctx sid argv before (panicking p, t) h (middle, e) =
      (middle, ground (arith, log_exit-events ctx sid 1 t h, e))
  finish-Framed ctx sid argv before (exited code, t) h l = l

  -- If a main function only adds events, and logs the exit, in the session of its context, where it
  -- ends the process: the events that a run of the program adds are the start with the arguments,
  -- those of the main function, and the two of the exit with the status that the process ends with,
  -- all three in one session, and this when the main function panics too.
  pub with_trace_logger-Framed :
      (argv : List Text) (main : Context → Trace → MainEnd × Trace) (t : Trace)
      → ((ctx : Context) (sid : Text) (u : Trace)
          → ctx.sid ≡ some sid
          → Logged sid u.events (main ctx u))
      → Framed (uuid t.uuids) argv t.events (with_trace_logger uuid argv main t)
  unfolding with_trace_logger log_start shared_fields
  with_trace_logger-Framed argv main t h =
      finish-Framed (log_start uuid argv background t).0 (uuid t.uuids) argv t.events _ refl (
        h (log_start uuid argv background t).0 (uuid t.uuids) (log_start uuid argv background t).1
          refl)

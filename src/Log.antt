-- ===== src/Log.antt =====
-- internal/log: trace2.go and logger.go. A trace is the list of its events, the last one at the
-- front; the fields for the time, the file and the line are left out, and the encoding of events is
-- zap's. `uuid` stands for what `uuid.New` gives from call to call.
pub mod Frames
pub mod Children
pub mod Regions
use git_bundle_server.Base.{
  ℕ, zero, suc, Text, codes, Bool, true, false, List, [], ◌∷◌, ◌++◌, Option, none, some,
  if◌then◌else◌, ◌==◌, ℤ, pos, negsuc, inc, int_Eq, text_Eq, Error, Outcome, ok, err, halt, Halt,
  panic, M,
}
use git_bundle_server.Go.Decimal.{parse_int}
use git_bundle_server.Go.Path.{join, dir}
use git_bundle_server.Go.Strings.{is_empty}

-- The events with their own fields
pub data Event : Type 0 where
  start : List Text → Event
  exit_event : ℕ → Event
  atexit : ℕ → Event
  region_enter : ℕ → Text → Text → Event
  region_leave : ℕ → Text → Text → Event
  child_start : ℤ → List Text → Event
  child_ready : ℤ → ℕ → Bool → List Text → Event
  child_exit : ℤ → ℕ → ℤ → Event
  cmd_name : Text → Event
  error_event : Text → Text → Event

-- `Trace2`: the session and the event of each line, the children's last number, the calls of uuid.
pub record Trace : Type 0 where
  pub events : List (Text × Event)
  pub last_child_id : ℤ
  pub uuids : ℕ

-- The values of a context that are read here: the session, and the level of the region around
pub record Context : Type 0 where
  pub sid : Option Text
  pub parent_region : Option ℕ

abbrev pub background : Context
background = record { sid = none; parent_region = none }

-- `NewTrace2`
abbrev pub new_trace2 : Trace
new_trace2 = record { events = []; last_child_id = negsuc 0; uuids = 0 }

abbrev pub log_event : Text → Event → Trace → Trace
log_event sid e t = record t { events = (sid, e) ∷ t.events }

-- What `getTrace2OutputPaths` finds, for the value of the variable, whether it names a directory,
-- and the name of a file for the start time. The directories that it makes for a path are left out.
unfoldable pub get_trace2_output_paths : Text → Bool → Text → List Text
get_trace2_output_paths output is_dir file = elim (parse_int output) [
  | some n ↦ if n == pos 1 then codes "stderr" ∷ [] else []
  | none ↦
      if is_empty output then [] else if is_dir then join (output ∷ file ∷ []) ∷ [] else output ∷ []
]

-- The largest int32
abbrev pub max_int32 : ℤ
max_int32 = pos 2147483647

-- `atomic.AddInt32(&t.lastChildId, 1)`, which wraps around
unfoldable pub next_child_id : ℤ → ℤ
next_child_id n = if n == max_int32 then negsuc 2147483647 else inc n

-- Where the main function of a program ends: it returns, panics, or ends the process.
pub data MainEnd : Type 0 where
  returned : MainEnd
  panicking : Text → MainEnd
  exited : ℕ → MainEnd

module _ (uuid : ℕ → Text) where
  abbrev pub session : Context → Option Text → Trace → Context × Text × Trace
  session ctx (some sid) t = (ctx, sid, t)
  session ctx none t =
      (record ctx { sid = some (uuid t.uuids) }, uuid t.uuids, record t { uuids = suc t.uuids })

  -- `sharedFields`: the context with a session, and the session
  unfoldable pub shared_fields : Context → Trace → Context × Text × Trace
  shared_fields ctx t = session ctx ctx.sid t

  unfoldable pub log_start : List Text → Context → Trace → Context × Trace
  log_start argv ctx t =
      let (ctx2, sid, t2) = shared_fields ctx t in (ctx2, log_event sid (start argv) t2)

  unfoldable pub log_exit : Context → ℕ → Trace → Trace
  log_exit ctx code t =
      let (ctx2, sid, t2) = shared_fields ctx t in
      log_event sid (atexit code) (log_event sid (exit_event code) t2)

  abbrev pub nesting : Option ℕ → ℕ
  nesting none = 0
  nesting (some level) = suc level

  -- `Region`: the context for the inside, and the function that leaves the region
  unfoldable pub region : Context → Text → Text → Trace → Context × (Trace → Trace) × Trace
  region ctx category label t =
      let (ctx2, sid, t2) = shared_fields ctx t in
      (
        record ctx2 { parent_region = some (nesting ctx2.parent_region) },
        log_event sid (region_leave (nesting ctx2.parent_region) category label),
        log_event sid (region_enter (nesting ctx2.parent_region) category label) t2,
      )

  -- `childReady`, for the process if it was started: there is no number to read of one that was
  -- not.
  abbrev pub child_is_ready : Text → ℤ → List Text → Option ℕ → Trace → Outcome Trace
  child_is_ready sid id argv none t =
      halt (panic (codes "invalid memory address or nil pointer dereference"))
  child_is_ready sid id argv (some pid) t = ok (log_event sid (child_ready id pid true argv) t)

  abbrev pub child_has_exited : Text → ℤ → ℕ → ℤ → Trace → Trace
  child_has_exited sid id pid code = log_event sid (child_exit id pid code)

  -- `ChildProcess`, up to the functions that it gives, which are the two above for the session and
  -- the number that it gives here
  unfoldable pub child_process : Context → List Text → Trace → Text × ℤ × Trace
  child_process ctx argv t =
      let (ctx2, sid, t2) = shared_fields ctx t in
      (
        sid,
        next_child_id t2.last_child_id,
        log_event sid (child_start (next_child_id t2.last_child_id) argv)
            (record t2 { last_child_id = next_child_id t2.last_child_id }),
      )

  unfoldable pub log_command : Context → Text → Trace → Context × Trace
  log_command ctx name t =
      let (ctx2, sid, t2) = shared_fields ctx t in (ctx2, log_event sid (cmd_name name) t2)

  -- `Error`: every error is a `loggedError`, which is another name of the interface; of a nil
  -- error, which is none, the text is asked for.
  unfoldable pub error : Context → Option Error → Trace → Outcome (Option Error) × Trace
  error ctx (some e) t = (ok (some e), t)
  error ctx none t = (halt (panic (codes "invalid memory address or nil pointer dereference")), t)

  abbrev pub has_error : List (Option Error) → Bool
  has_error [] = false
  has_error (some e ∷ args) = true
  has_error (none ∷ args) = has_error args

  -- `Errorf`, for the error made of the format and the arguments, each an error or not
  unfoldable pub errorf : Context → Text → Text → List (Option Error) → Trace → Trace
  errorf ctx format msg args t =
      if has_error args
      then t
      else (let (ctx2, sid, t2) = shared_fields ctx t in log_event sid (error_event msg format) t2)

  -- `Exit`, `Fatal` and `Fatalf`
  abbrev pub exit_process : Context → ℕ → Trace → MainEnd × Trace
  exit_process ctx code t = (exited code, log_exit ctx code t)

  abbrev pub fatal_exit : Context → Trace → MainEnd × Trace
  fatal_exit ctx t = exit_process ctx 1 t

  -- The deferred function of `WithTraceLogger`, with the status of the process
  abbrev pub finish : Context → MainEnd × Trace → ℕ × Trace
  finish ctx (returned, t) = (0, log_exit ctx 0 t)
  finish ctx (panicking p, t) = (1, log_exit ctx 1 t)
  finish ctx (exited code, t) = (code, t)

  unfoldable pub with_trace_logger :
      List Text → (Context → Trace → MainEnd × Trace) → Trace → ℕ × Trace
  with_trace_logger argv main t =
      let (ctx, t2) = log_start argv background t in finish ctx (main ctx t2)

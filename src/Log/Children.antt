-- ===== src/Log/Children.antt =====
-- The numbers of the children in a trace.
use git_bundle_server.Base.{
  ℕ, zero, suc, ◌≤◌, ◌+◌, Text, Bool, true, false, List, [], ◌∷◌, Option, none, some, if◌then◌else◌,
  Error, ℤ, pos, negsuc, eq_ℤ_iff, int_Eq, ◌≡◌, refl, ap, sym, subst, ◌∙◌, arith,
}
use git_bundle_server.Base.Assoc.{has, Distinct}
use git_bundle_server.Log.{
  Event, start, exit_event, atexit, region_enter, region_leave, child_start, child_ready,
  child_exit, cmd_name, error_event, Trace, Context, log_event, new_trace2, next_child_id, session,
  shared_fields, has_error, log_start, log_exit, region, child_process, child_has_exited,
  log_command, errorf,
}

-- A call of the tracer. The calls behind a region's and a child's start are those of the functions
-- that `Region` and `ChildProcess` gave, for their session, level and number.
pub data Call : Type 0 where
  starts : List Text → Context → Call
  exits : Context → ℕ → Call
  enters : Context → Text → Text → Call
  leaves : Text → ℕ → Text → Text → Call
  begins_child : Context → List Text → Call
  readies_child : Text → ℤ → ℕ → List Text → Call
  ends_child : Text → ℤ → ℕ → ℤ → Call
  names_command : Context → Text → Call
  reports : Context → Text → Text → List (Option Error) → Call

abbrev pub children_of : List Call → ℕ
children_of [] = 0
children_of (begins_child ctx argv ∷ cs) = suc (children_of cs)
children_of (starts argv ctx ∷ cs) = children_of cs
children_of (exits ctx code ∷ cs) = children_of cs
children_of (enters ctx category label ∷ cs) = children_of cs
children_of (leaves sid level category label ∷ cs) = children_of cs
children_of (readies_child sid id pid argv ∷ cs) = children_of cs
children_of (ends_child sid id pid code ∷ cs) = children_of cs
children_of (names_command ctx name ∷ cs) = children_of cs
children_of (reports ctx format msg args ∷ cs) = children_of cs

-- The numbers of the children that events start, the last one at the front
abbrev pub started : List (Text × Event) → List ℤ
started [] = []
started ((sid, child_start id argv) ∷ es) = id ∷ started es
started ((sid, start argv) ∷ es) = started es
started ((sid, exit_event code) ∷ es) = started es
started ((sid, atexit code) ∷ es) = started es
started ((sid, region_enter level category label) ∷ es) = started es
started ((sid, region_leave level category label) ∷ es) = started es
started ((sid, child_ready id pid ready argv) ∷ es) = started es
started ((sid, child_exit id pid code) ∷ es) = started es
started ((sid, cmd_name name) ∷ es) = started es
started ((sid, error_event msg format) ∷ es) = started es

-- The numbers below `n`, the largest one at the front
abbrev pub down : ℕ → List ℤ
down zero = []
down (suc n) = pos n ∷ down n

-- The number before `n`
abbrev before : ℕ → ℤ
before zero = negsuc 0
before (suc n) = pos n

-- A trace in which so many children were started
record Numbered (n : ℕ) (t : Trace) : Type 0 where
  last : t.last_child_id ≡ before n
  numbers : started t.events ≡ down n

next-before : (n : ℕ) → n ≤ 2147483647 → next_child_id (before n) ≡ pos n
unfolding next_child_id
next-before zero h = refl
next-before (suc n) h = ground (arith, h)

below-down : (n k : ℕ) → n ≤ k → has (down n) (pos k) ≡ false
below-down zero k h = refl
below-down (suc n) k h =
    ground (arith, h, below-down n k (omega (arith, h)), eq_ℤ_iff (pos n) (pos k))

Distinct-down : (n : ℕ) → Distinct (down n)
Distinct-down zero = tt
Distinct-down (suc n) = (below-down n n (omega arith), Distinct-down n)

module _ (uuid : ℕ → Text) where
  abbrev pub run_call : Call → Trace → Trace
  run_call (starts argv ctx) t = (log_start uuid argv ctx t).1
  run_call (exits ctx code) t = log_exit uuid ctx code t
  run_call (enters ctx category label) t = (region uuid ctx category label t).2
  run_call (leaves sid level category label) t = log_event sid (region_leave level category label) t
  run_call (begins_child ctx argv) t = (child_process uuid ctx argv t).2
  run_call (readies_child sid id pid argv) t = log_event sid (child_ready id pid true argv) t
  run_call (ends_child sid id pid code) t = child_has_exited uuid sid id pid code t
  run_call (names_command ctx name) t = (log_command uuid ctx name t).1
  run_call (reports ctx format msg args) t = errorf uuid ctx format msg args t

  abbrev pub run_calls : List Call → Trace → Trace
  run_calls [] t = t
  run_calls (c ∷ cs) t = run_calls cs (run_call c t)

  shared_fields-Numbered :
      (n : ℕ) (ctx : Context) (t : Trace) → Numbered n t → Numbered n (shared_fields uuid ctx t).2
  unfolding shared_fields
  shared_fields-Numbered n ctx t h = split ctx.sid
    where
      split : (o : Option Text) → Numbered n (session uuid ctx o t).2
      split none = record { last = h.last; numbers = h.numbers }
      split (some sid) = h

  child_process-Numbered :
      (n : ℕ) (ctx : Context) (argv : List Text) (t : Trace)
      → n ≤ 2147483647
      → Numbered n t
      → Numbered (suc n) (child_process uuid ctx argv t).2
  unfolding child_process
  child_process-Numbered n ctx argv t small h =
      let s = shared_fields-Numbered n ctx t h in
      let next = ap next_child_id s.last ∙ next-before n small in
      record {
        last = next;
        numbers =
            ap (λ k. k ∷ started (shared_fields uuid ctx t).2.events) next
            ∙ ap (◌∷◌ (pos n)) s.numbers;
      }

  errorf-Numbered :
      (n : ℕ) (ctx : Context) (format msg : Text) (args : List (Option Error)) (t : Trace)
      → Numbered n t
      → Numbered n (errorf uuid ctx format msg args t)
  unfolding errorf
  errorf-Numbered n ctx format msg args t h = split (has_error uuid args)
    where
      split :
          (b : Bool)
          → Numbered n (
              if b
              then t
              else log_event
                  (shared_fields uuid ctx t).1
                  (error_event msg format)
                  (shared_fields uuid ctx t).2)
      split true = h
      split false = record { last = shared.last; numbers = shared.numbers }
        where
          shared : Numbered n (shared_fields uuid ctx t).2
          shared = shared_fields-Numbered n ctx t h

  -- An event that starts no child
  logged-Numbered :
      (n : ℕ) (sid : Text) (e : Event) (t : Trace)
      → started ((sid, e) ∷ t.events) ≡ started t.events
      → Numbered n t
      → Numbered n (log_event sid e t)
  logged-Numbered n sid e t none_started h = record {
    last = h.last;
    numbers = none_started ∙ h.numbers;
  }

  log_exit-Numbered :
      (n : ℕ) (ctx : Context) (code : ℕ) (t : Trace)
      → Numbered n t
      → Numbered n (log_exit uuid ctx code t)
  unfolding log_exit
  log_exit-Numbered n ctx code t h =
      logged-Numbered n _ (atexit code) _ refl
        (logged-Numbered n _ (exit_event code) _ refl (shared_fields-Numbered n ctx t h))

  run_calls-Numbered :
      (cs : List Call) (n : ℕ) (t : Trace)
      → n + children_of cs ≤ 2147483648
      → Numbered n t
      → Numbered (n + children_of cs) (run_calls cs t)
  unfolding log_start region log_command
  run_calls-Numbered [] n t small h = subst (λ k. Numbered k t) (omega arith) h
  run_calls-Numbered (begins_child ctx argv ∷ cs) n t small h =
      subst (λ k. Numbered k (run_calls (begins_child ctx argv ∷ cs) t)) (omega arith)
        (run_calls-Numbered cs (suc n) _ (omega (arith, small))
          (child_process-Numbered n ctx argv t (omega (arith, small)) h))
  run_calls-Numbered (starts argv ctx ∷ cs) n t small h =
      run_calls-Numbered cs n _ small
        (logged-Numbered n _ (start argv) _ refl (shared_fields-Numbered n ctx t h))
  run_calls-Numbered (exits ctx code ∷ cs) n t small h =
      run_calls-Numbered cs n _ small (log_exit-Numbered n ctx code t h)
  run_calls-Numbered (enters ctx category label ∷ cs) n t small h =
      run_calls-Numbered cs n _ small (
        logged-Numbered n _ (region_enter _ category label) _ refl
          (shared_fields-Numbered n ctx t h))
  run_calls-Numbered (leaves sid level category label ∷ cs) n t small h =
      run_calls-Numbered cs n _ small
        (logged-Numbered n sid (region_leave level category label) t refl h)
  run_calls-Numbered (readies_child sid id pid argv ∷ cs) n t small h =
      run_calls-Numbered cs n _ small
        (logged-Numbered n sid (child_ready id pid true argv) t refl h)
  run_calls-Numbered (ends_child sid id pid code ∷ cs) n t small h =
      run_calls-Numbered cs n _ small (logged-Numbered n sid (child_exit id pid code) t refl h)
  run_calls-Numbered (names_command ctx name ∷ cs) n t small h =
      run_calls-Numbered cs n _ small
        (logged-Numbered n _ (cmd_name name) _ refl (shared_fields-Numbered n ctx t h))
  run_calls-Numbered (reports ctx format msg args ∷ cs) n t small h =
      run_calls-Numbered cs n _ small (errorf-Numbered n ctx format msg args t h)

  -- Of a new tracer, behind any sequence of calls that starts no more than 2 ^ 31 children: the
  -- children that the trace starts have the numbers from 0 on, one after the other, as many as
  -- there were calls for a child, and no two of them have the same number.
  pub run_calls-started :
      (cs : List Call)
      → children_of cs ≤ 2147483648
      → (started (run_calls cs new_trace2).events ≡ down (children_of cs))
        × Distinct (started (run_calls cs new_trace2).events)
  run_calls-started cs small =
      let numbered : Numbered (children_of cs) (run_calls cs new_trace2) =
        subst (λ k. Numbered k (run_calls cs new_trace2)) (omega arith)
          (run_calls-Numbered cs 0 new_trace2 (omega (arith, small))
            (record { last = refl; numbers = refl })) in
      (numbered.numbers, subst Distinct (sym numbered.numbers) (Distinct-down (children_of cs)))

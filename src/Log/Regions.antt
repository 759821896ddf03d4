-- ===== src/Log/Regions.antt =====
-- The regions of a trace, which are entered and left as the calls of `Region` are nested.
use git_bundle_server.Base.{ℕ, suc, Text, List, ◌∷◌, some, ◌≡◌, refl, ap, ◌∙◌}
use git_bundle_server.Log.{
  Event, region_enter, region_leave, Trace, Context, log_event, shared_fields, nesting, region,
}

-- Regions one after the other, each with those inside it: `ctx, exitRegion := Region(...)` with
-- `defer exitRegion()`.
pub data Regions : Type 0 where
  no_more : Regions
  inside_of : Text → Text → Regions → Regions → Regions

-- The events, each on the list of those before it
abbrev pub spell : Text → ℕ → Regions → List (Text × Event) → List (Text × Event)
spell sid level no_more before = before
spell sid level (inside_of category label inner next) before = spell sid level next (
    (sid, region_leave level category label)
    ∷ spell sid (suc level) inner ((sid, region_enter level category label) ∷ before))

module _ (uuid : ℕ → Text) where
  abbrev pub run_regions : Context → Regions → Trace → Trace
  run_regions ctx no_more t = t
  run_regions ctx (inside_of category label inner next) t =
      let (within, leave, t2) = region uuid ctx category label t in
      run_regions ctx next (leave (run_regions within inner t2))

  region-some :
      (ctx : Context) (sid category label : Text) (t : Trace)
      → ctx.sid ≡ some sid
      → region uuid ctx category label t ≡ (
        record ctx { parent_region = some (nesting uuid ctx.parent_region) },
        log_event sid (region_leave (nesting uuid ctx.parent_region) category label),
        log_event sid (region_enter (nesting uuid ctx.parent_region) category label) t,
      )
  unfolding region shared_fields
  region-some ctx sid category label t h = rw h refl

  -- In a context with a session, the regions that are run leave exactly the events of the nesting:
  -- each region's enter and leave with the level of its depth below the region around, around those
  -- of the regions inside it, all in the session.
  pub run_regions-spell :
      (rs : Regions) (ctx : Context) (sid : Text) (t : Trace)
      → ctx.sid ≡ some sid
      → (run_regions ctx rs t).events ≡ spell sid (nesting uuid ctx.parent_region) rs t.events
  run_regions-spell no_more ctx sid t h = refl
  run_regions-spell (inside_of category label inner next) ctx sid t h =
      ap (λ r. (run_regions ctx next (r.1 (run_regions r.0 inner r.2))).events)
        (region-some ctx sid category label t h)
      ∙ run_regions-spell next ctx sid
          (log_event sid (region_leave (nesting uuid ctx.parent_region) category label)
            (run_regions within inner entered))
          h
      ∙ ap
          (λ es.
            spell sid (nesting uuid ctx.parent_region) next
              ((sid, region_leave (nesting uuid ctx.parent_region) category label) ∷ es))
          (run_regions-spell inner within sid entered h)
    where
      within : Context
      within = record ctx { parent_region = some (nesting uuid ctx.parent_region) }

      entered : Trace
      entered = log_event sid (region_enter (nesting uuid ctx.parent_region) category label) t

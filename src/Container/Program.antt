-- ===== src/Container/Program.antt =====
-- The container that BuildGitBundleServerContainer makes.
use git_bundle_server.Base.{
  ℕ, ◌<◌, Text, text_eq, text_Eq, true, List, [], ◌∷◌, Option, none, some, ◌≡◌, arith,
}
use git_bundle_server.Base.Assoc.{has, keys, lookup, insert, Distinct}
use git_bundle_server.Container.{
  Container, resolved, get_dependency, build_git_bundle_server_container, register_all_of,
  register_dependency, remove_name, repository_provider, bundle_provider, cron_scheduler,
  cron_helper, git_helper, daemon_provider,
}
use git_bundle_server.Container.Singletons.{get_dependency-resolved}

-- How many initializers are within that of a type
abbrev ranks : List (Text × ℕ)
ranks =
    (repository_provider, 2)
    ∷ (bundle_provider, 2)
    ∷ (cron_scheduler, 1)
    ∷ (cron_helper, 2)
    ∷ (git_helper, 1)
    ∷ (daemon_provider, 1)
    ∷ []

abbrev or_first : Option ℕ → ℕ
or_first none = 0
or_first (some n) = n

abbrev rank_of : Text → ℕ
rank_of t = or_first (lookup t ranks)

abbrev AllBelow : ℕ → List (Text × ℕ) → Type 0
AllBelow n [] = Unit
AllBelow n ((t, r) ∷ rs) = (r < n) × AllBelow n rs

rank_lt :
    (rs : List (Text × ℕ)) (n : ℕ) (t : Text) → AllBelow n rs → 0 < n → or_first (lookup t rs) < n
unfolding lookup
rank_lt [] n t h z = z
rank_lt ((s, r) ∷ rs) n t h z = ground (arith, rank_lt rs n t h.1 z)

-- The program's container, with some singletons made already
abbrev pub built : List Text → Container
built created = record build_git_bundle_server_container { created = created }

-- On an operating system that NewDaemonProvider knows, and whichever singletons of the program's
-- container were made already, each once: GetDependency of a registered type ends with no more than
-- three initializers within each other, and neither panics nor waits for itself; its singleton is
-- there then, and still none was made twice.
pub get_dependency-built :
    (created : List Text) (t : Text)
    → Distinct created
    → has (keys (built created).initializers) t ≡ true
    → (d : Container) × (get_dependency 3 t (built created) ≡ resolved d)
      × (has d.created t ≡ true)
      × Distinct d.created
unfolding lookup text_eq build_git_bundle_server_container register_all_of register_dependency
    remove_name insert
get_dependency-built created t h there =
    let (d, e, made, kept, distinct, same) =
      get_dependency-resolved rank_of (built created) t 3 (ground arith) h there
        (rank_lt ranks 3 t (ground arith) (omega arith)) in
    (d, e, made, distinct)

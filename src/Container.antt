-- ===== src/Container.antt =====
-- cmd/utils/container.go and container-helpers.go: the container of the program's parts. A type is
-- given by its name, and an initializer by the types that it asks the container for, in order; what
-- it makes of them is left out. `created` lists the singletons that there are, the last one first.
pub mod Singletons
pub mod Program
use git_bundle_server.Base.{
  ℕ, zero, suc, Text, codes, Bool, true, false, List, [], ◌∷◌, ◌++◌, Option, none, some,
  if◌then◌else◌, text_Eq, Halt, panic,
}
use git_bundle_server.Base.Assoc.{has, keys, lookup, insert}

-- `DependencyContainer`
pub record Container : Type 0 where
  pub initializers : List (Text × List Text)
  pub created : List Text

-- What `GetDependency` comes to: a container with the singleton, a panic, or no end, which is an
-- initializer that waits for itself in `once.Do`.
pub data Resolved : Type 0 where
  resolved : Container → Resolved
  panicked : Text → Resolved
  waiting : Resolved

abbrev pub new_container : Container
new_container = record { initializers = []; created = [] }

unfoldable pub remove_name : Text → List Text → List Text
remove_name t [] = []
remove_name t (s ∷ names) =
    let rest = remove_name t names in if has (s ∷ []) t then rest else s ∷ rest

-- `registerDependency`: a new `sync.Once` for the type
unfoldable pub register_dependency : Text → List Text → Container → Container
register_dependency t deps c = record c {
  initializers = insert t deps c.initializers;
  created = remove_name t c.created;
}

-- `ListRegisteredTypes`
abbrev pub list_registered_types : Container → List Text
list_registered_types c = keys c.initializers

abbrev pub then_each : (Container → Resolved) → Resolved → Resolved
then_each f (resolved c) = f c
then_each f (panicked p) = panicked p
then_each f waiting = waiting

-- Calls for one type after the other
unfoldable pub each : (Text → Container → Resolved) → List Text → Container → Resolved
each get [] c = resolved c
each get (t ∷ ts) c = then_each (each get ts) (get t c)

abbrev pub put_singleton : Text → Container → Resolved
put_singleton t c = resolved (record c { created = t ∷ c.created })

-- The function that `wrapFuncForSingleton` gives: the initializer at the first call, and what it
-- gave at every later one.
unfoldable pub wrap_func_for_singleton :
    (Text → Container → Resolved) → Text → List Text → Container → Resolved
wrap_func_for_singleton get t deps c =
    if has c.created t then resolved c else then_each (put_singleton t) (each get deps c)

abbrev pub loaded : (Text → Container → Resolved) → Text → Container → Option (List Text) → Resolved
loaded get t c none = panicked (codes "no initializer registered for type '" ++ t ++ codes "'")
loaded get t c (some deps) = wrap_func_for_singleton get t deps c

-- `GetDependency`, with at most so many initializers within each other
unfoldable pub get_dependency : ℕ → Text → Container → Resolved
get_dependency zero t c = waiting
get_dependency (suc fuel) t c = loaded (get_dependency fuel) t c (lookup t c.initializers)

-- `InvokeAll`
unfoldable pub invoke_all : ℕ → Container → Resolved
invoke_all fuel c = each (get_dependency fuel) (list_registered_types c) c

abbrev pub user_provider : Text
user_provider = codes "common.UserProvider"

abbrev pub command_executor : Text
command_executor = codes "cmd.CommandExecutor"

abbrev pub file_system : Text
file_system = codes "common.FileSystem"

abbrev pub repository_provider : Text
repository_provider = codes "core.RepositoryProvider"

abbrev pub bundle_provider : Text
bundle_provider = codes "bundles.BundleProvider"

abbrev pub cron_scheduler : Text
cron_scheduler = codes "core.CronScheduler"

abbrev pub cron_helper : Text
cron_helper = codes "utils.CronHelper"

abbrev pub git_helper : Text
git_helper = codes "git.GitHelper"

abbrev pub daemon_provider : Text
daemon_provider = codes "daemon.DaemonProvider"

unfoldable pub register_all_of : List (Text × List Text) → Container → Container
register_all_of [] c = c
register_all_of ((t, deps) ∷ more) c = register_all_of more (register_dependency t deps c)

-- What each initializer of container-helpers.go asks for, where `NewDaemonProvider` knows the
-- operating system: on its error the last of them ends the process, which is left out.
abbrev pub registrations : List (Text × List Text)
registrations =
    (user_provider, [])
    ∷ (command_executor, [])
    ∷ (file_system, [])
    ∷ (repository_provider, user_provider ∷ file_system ∷ git_helper ∷ [])
    ∷ (bundle_provider, file_system ∷ git_helper ∷ [])
    ∷ (cron_scheduler, user_provider ∷ command_executor ∷ file_system ∷ [])
    ∷ (cron_helper, file_system ∷ cron_scheduler ∷ [])
    ∷ (git_helper, command_executor ∷ [])
    ∷ (daemon_provider, user_provider ∷ command_executor ∷ file_system ∷ [])
    ∷ []

-- `BuildGitBundleServerContainer`
unfoldable pub build_git_bundle_server_container : Container
build_git_bundle_server_container = register_all_of registrations new_container

-- ===== src/Lib.antt =====
-- git-bundle-server keeps Git bundles of repositories and serves them over HTTP. This library models
-- its Go code: the command-line program (cmd/git-bundle-server) that registers repositories, runs
-- git, and writes bundles and bundle lists, and the web server (cmd/git-bundle-web-server) that
-- reads the registry and the files.
--
-- The parts, each with the file that models it:
--   Base, Go        shared types and tests; the functions of packages strings, strconv and path that
--                   the code uses (Go.Strings, Go.Decimal, Go.Path), and valid UTF-8 (Go.Utf8)
--   Machine         the operating system as a parameter: its calls, and the laws they keep
--                   (IsLawful), with the current user (internal/common/user.go);
--                   Machine.Memory is a machine in memory, for the tests
--   Common          internal/common/filesystem.go: whole files, lock files, lines, directories
--   Git             internal/git/git.go: the git commands and what their exit becomes
--   Core.Repo       internal/core/repo.go: the registry of routes; Core.Paths: paths.go
--   Core.Cron       internal/core/cron.go and cmd/utils/cron.go
--   Bundles         internal/bundles/bundles.go: tokens (BundleList), the list files and their locks
--                   (ListFile), bundle headers (Header), incremental bundles and the collapse (Provider)
--   Auth            pkg/auth/auth-result.go and internal/auth/middleware.go; Auth.Config:
--                   parseAuthConfig of cmd/git-bundle-web-server/main.go
--   Web             cmd/git-bundle-web-server/bundle-server.go: parseRoute and serve; Web.Setup:
--                   NewBundleWebServer, and main of main.go; Web.Lifecycle: the goroutines
--   Utils           internal/utils/maps.go and slices.go
--   Commands        cmd/git-bundle-server: init, update, update-all, start, stop, delete, repair;
--                   Commands.Main: their arguments, list, version and main; Commands.Table: what
--                   each command line runs
--   Daemon          internal/daemon: systemd and launchd; Daemon.Start: web-server.go
--   Cmd             internal/cmd: how a program is run
--   Flags           package flag, with the flags of cmd/utils/common-args.go (Flags.WebServer)
--   Argparse        internal/argparse: subcommands and positional arguments
--   Container       cmd/utils/container.go and container-helpers.go: the program's singletons
--   Log             internal/log: the events of a trace, the frame around main, and the numbers
--                   of the children (Log.Children)
--   Tests           the theorems at concrete inputs
--
-- How the code becomes definitions. A function keeps its name, in snake case. Code that can fail and
-- that changes the world is an action M: a function from the world to an Outcome (a value, an error,
-- a panic or the end of the process) and the next world. A text is its list of bytes, a map an
-- association list in some order of iteration, int64 an integer whose increment wraps. JSON,
-- hexadecimal, SHA-256, plugins, regular expressions and XML are parameters.
--
-- Bounds and fuel. Digits of a number are produced on fuel above the number, which is enough as each
-- step divides by ten. ReadDirRecursive recurs on its depth. A scanner stops at a line of 64 KiB.
-- CollapseList keeps five bundles. GetDependency takes as fuel how many initializers may be within
-- each other; more than the rank of a type in an order of what asks for what is enough.
--
-- The goroutines of the web server are a step relation on one state (Web.Lifecycle), in which
-- clients and whoever sends signals step too; a run is a sequence of steps in any order.
--
-- Not modelled: what is printed, but for the lines of `list` and `version`, and usage texts; the
-- fields of trace events for times and callers, and their encoding by zap; the handshake of TLS and
-- the handling of connections, which are net/http's; file permissions; the mocks of
-- internal/testhelpers and the example of a plugin. The trace is a model of its own: the other parts
-- leave out their calls of the logger, but for those that end the process.
pub mod Base
pub mod Go
pub mod Machine
pub mod Cmd
pub mod Common
pub mod Git
pub mod Core
pub mod Bundles
pub mod Utils
pub mod Auth
pub mod Web
pub mod Commands
pub mod Daemon
pub mod Tests
pub mod Argparse
pub mod Container
pub mod Flags
pub mod Log

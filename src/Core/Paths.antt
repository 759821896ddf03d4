-- ===== src/Core/Paths.antt =====
-- internal/core/paths.go
use git_bundle_server.Base.{Text, codes, [], ◌∷◌}
use git_bundle_server.Go.Path.{join}
use git_bundle_server.Machine.{User}

unfoldable pub bundle_root : User → Text
bundle_root user = join (user.home_dir ∷ codes "git-bundle-server" ∷ [])

unfoldable pub web_root : User → Text
unfolding bundle_root
web_root user = join (bundle_root user ∷ codes "www" ∷ [])

unfoldable pub repo_root : User → Text
unfolding bundle_root
repo_root user = join (bundle_root user ∷ codes "git" ∷ [])

unfoldable pub crontab_file : User → Text
unfolding bundle_root
crontab_file user = join (bundle_root user ∷ codes "cron-schedule" ∷ [])

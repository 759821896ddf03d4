-- ===== src/Tests/Serving.antt =====
-- The web server and its middleware at concrete inputs.
use git_bundle_server.Base.{
  ℕ, Text, codes, true, false, [], ◌∷◌, ◌++◌, Option, none, some, ◌≡◌, ◌↔◌, refl, arith, text_eq,
  text_Eq, length, pos, ok, err, message,
}
use git_bundle_server.Base.Assoc.{lookup, insert}
use git_bundle_server.Auth.{
  Request, Response, AuthFunc, AuthResult, FixedCredentialAuth, FixedCredentialAuthParams,
  apply_result, authorize, new_fixed_credential_auth, write_header, write_custom_headers, fresh,
  allow,
}
use git_bundle_server.Auth.Config.{
  AuthConfig, Packages, parse_plugin, verify_plugin, get_plugin_checksum, load_plugin,
}
use git_bundle_server.Auth.Fixed.{authorize_fixed}
use git_bundle_server.Auth.Verified.{parse_plugin-eq-ok}
use git_bundle_server.Bundles.BundleList.{new_bundle, bundle_name}
use git_bundle_server.Bundles.ListFile.{list_path, repo_list_path, request, request_with_slash}
use git_bundle_server.Common.FileSystem.{read_file_lines, scan_lines, lines_of}
use git_bundle_server.Core.Paths.{bundle_root, web_root}
use git_bundle_server.Core.Repo.{
  Repository, Repos, get_repositories, read_routes, route_file, repository,
}
use git_bundle_server.Go.Path.{join, clean, keep, keep_all, is_elem}
use git_bundle_server.Go.Strings.{split, drop_empty, join_with, contains, has_prefix, is_empty}
use git_bundle_server.Machine.Memory.{Memory, memory, memory-IsLawful}
use git_bundle_server.Machine.{done}
use git_bundle_server.Tests.Inputs.{repo_ab, empty_disk}
use git_bundle_server.Web.{parse_route, file_to_serve, serve}
use git_bundle_server.Web.Routing.{serve_written}
use git_bundle_server.Web.Serving.{LetsIn, serve-eq-served}

serve_written_example :
    (parse_route (new_bundle repo_ab (pos 4)).uri ≡ ok (codes "a", codes "b", bundle_name (pos 4)))
    × (file_to_serve repo_ab (new_bundle repo_ab (pos 4)).uri (bundle_name (pos 4))
        ≡ ok (some (new_bundle repo_ab (pos 4)).filename))
    × (parse_route (request repo_ab) ≡ ok (codes "a", codes "b", []))
    × (file_to_serve repo_ab (request repo_ab) [] ≡ ok (some (repo_list_path repo_ab)))
    × (parse_route (request_with_slash repo_ab) ≡ ok (codes "a", codes "b", []))
    × (file_to_serve repo_ab (request_with_slash repo_ab) [] ≡ ok (some (list_path repo_ab)))
unfolding is_elem text_eq
serve_written_example = serve_written (codes "a") (codes "b") refl refl repo_ab (pos 4) refl

-- A registered route with one bundle.
abbrev web_disk : Memory
web_disk = record empty_disk {
  files =
      (codes "/h/git-bundle-server/routes", codes "a/b\n")
      ∷ (codes "/h/git-bundle-server/www/a/b/bundle-4.bundle", codes "PACK")
      ∷ [];
}

abbrev get_bundle : Request
get_bundle = record { path = codes "/a/b/bundle-4.bundle"; basic_auth = none }

abbrev everyone : Option AuthFunc
everyone = some (λ r owner repo. ok (allow []))

abbrev bundle_served : Response
bundle_served = record fresh { served = some (codes "bundle-4.bundle", codes "PACK") }

was_served : (serve memory everyone get_bundle web_disk).0 ≡ ok bundle_served
unfolding serve parse_route file_to_serve get_repositories read_file_lines read_routes route_file
    bundle_root web_root repository join clean keep keep_all split drop_empty join_with text_eq
    insert lookup scan_lines lines_of apply_result allow write_custom_headers
was_served = refl

serve-eq-served_example :
    (owner : Text) × (repo : Text) × (repos : Repos) × (repository : Repository) × (file : Text)
    × (parse_route get_bundle.path ≡ ok (owner, repo, codes "bundle-4.bundle"))
    × LetsIn everyone get_bundle owner repo
    × ((get_repositories memory web_disk).0 ≡ ok repos)
    × (lookup (owner ++ codes "/" ++ repo) repos ≡ some repository)
    × (file_to_serve repository get_bundle.path (codes "bundle-4.bundle") ≡ ok (some file))
    × (memory.file (get_repositories memory web_disk).1 file ≡ some (codes "PACK"))
unfolding apply_result allow write_custom_headers
serve-eq-served_example =
    serve-eq-served memory memory-IsLawful (codes "bundle-4.bundle") (codes "PACK") everyone
      get_bundle web_disk bundle_served (λ r owner repo res h. ground (arith, h)) was_served refl

-- A digest of 32 bytes, for want of SHA-256.
abbrev digest : Text → Text
digest t = codes "0123456789012345678901234567890" ++ length t ∷ []

abbrev admin : FixedCredentialAuthParams
admin = record { username = codes "admin"; password_hash_text = digest (codes "secret") }

abbrev admin_auth : FixedCredentialAuth
admin_auth = record {
  username_hash = digest (codes "admin");
  password_hash = digest (codes "secret");
}

abbrev guess : Request
guess = record { path = codes "/a/b"; basic_auth = some (codes "admin", codes "12345") }

admin_made : new_fixed_credential_auth digest ok (λ raw. ok admin) (codes "{}") ≡ ok admin_auth
unfolding new_fixed_credential_auth contains has_prefix
admin_made = refl

authorize_fixed_example :
    (res : AuthResult) × (authorize digest ok
        (λ raw. ok admin)
        admin_auth
        guess
        (codes "a")
        (codes "b")
      ≡ ok res)
    × (((apply_result res fresh).0 ≡ false) ↔ (
        (digest (codes "admin") ≡ digest (codes "admin"))
        × (ok (digest (codes "secret")) ≡ ok (digest (codes "12345")))))
    × ((apply_result res fresh).0 ≡ true
        → (apply_result res fresh).1 ≡ write_header (pos 404) fresh)
authorize_fixed_example =
    authorize_fixed digest ok (λ raw. ok admin) (codes "{}") admin admin_auth guess (codes "a")
      (codes "b") (codes "admin") (codes "12345") refl admin_made refl

-- Packages whose plugins hold one symbol, an initializer that gives a number.
abbrev packages : Packages ℕ (Unit {0}) (Unit {0})
packages = record {
  sha256 = digest;
  hex_decode = ok;
  unmarshal_config = λ t. err (message t);
  unmarshal_params = λ t. ok admin;
  plugin_open = λ t. ok tt;
  lookup_symbol = λ p t. ok tt;
  as_initializer = λ s. some (λ parameters. ok (some (length parameters)));
}

abbrev plugin_config : AuthConfig
plugin_config = record {
  auth_mode = codes "plugin";
  path = codes "/p.so";
  initializer = codes "Init";
  checksum = digest (codes "ELF");
  parameters = codes "{}";
}

abbrev plugin_disk : Memory
plugin_disk = record empty_disk { files = (codes "/p.so", codes "ELF") ∷ [] }

plugin_loaded : (parse_plugin packages memory plugin_config plugin_disk).0 ≡ ok (some 2)
unfolding parse_plugin verify_plugin get_plugin_checksum load_plugin lookup text_eq
plugin_loaded = refl

parse_plugin-eq-ok_example :
    (is_empty plugin_config.path ≡ false)
    × (is_empty plugin_config.initializer ≡ false)
    × (is_empty plugin_config.checksum ≡ false)
    × ((content : Text) × (v : Memory) × ((memory.open_read plugin_config.path plugin_disk).0
          ≡ done content)
        × (packages.hex_decode plugin_config.checksum ≡ ok (packages.sha256 content))
        × ((load_plugin packages memory plugin_config v).0 ≡ ok (some 2)))
parse_plugin-eq-ok_example =
    parse_plugin-eq-ok packages memory plugin_config plugin_disk (some 2) plugin_loaded

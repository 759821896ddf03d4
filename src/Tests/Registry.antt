-- ===== src/Tests/Registry.antt =====
-- The registry of routes at concrete inputs.
use git_bundle_server.Base.{
  Text, codes, true, not, ◌&&◌, ◌||◌, [], ◌∷◌, none, some, if◌then◌else◌, ◌≡◌, refl, arith, text_eq,
  text_Eq, ◌==◌, ok, All,
}
use git_bundle_server.Base.Assoc.{has, keys, lookup, insert, delete}
use git_bundle_server.Commands.{repaired}
use git_bundle_server.Commands.Repair.{lookup-repaired}
use git_bundle_server.Common.FileSystem.{
  create_leading_dirs, write_file, read_file_lines, scan_lines, lines_of,
}
use git_bundle_server.Core.Paths.{bundle_root}
use git_bundle_server.Core.Repo.{
  Repos, repository, route_file, contents_onto, read_routes, write_all_routes, get_repositories,
  create_repository, add_repository, remove_route,
}
use git_bundle_server.Core.Repo.Changes.{
  get_repositories-create_repository, get_repositories-remove_route,
}
use git_bundle_server.Core.Repo.Routes.{IsRoute, get_repositories-write_all_routes}
use git_bundle_server.Go.Path.{join, clean, keep, keep_all, dir, dir_part}
use git_bundle_server.Go.Strings.{split, drop_empty, join_with}
use git_bundle_server.Machine.{done}
use git_bundle_server.Machine.Memory.{Memory, memory, memory-IsLawful}
use git_bundle_server.Tests.Inputs.{alice, empty_disk}
use git_bundle_server.Utils.{segment_keys}
use git_bundle_server.Utils.Segments.{segment_keys_lem}

abbrev ab : Text
ab = codes "a/b"

abbrev cd : Text
cd = codes "c/d"

abbrev two_repos : Repos
two_repos = (ab, repository alice ab) ∷ (cd, repository alice cd) ∷ []

abbrev two_lines : Text
two_lines = codes "a/b\nc/d\n"

two_routes : All IsRoute (ab ∷ cd ∷ [])
two_routes = (
  record {
    some_text = refl;
    is_line = record { no_newline = refl; no_cr = refl; short = omega arith };
  },
  (
    record {
      some_text = refl;
      is_line = record { no_newline = refl; no_cr = refl; short = omega arith };
    },
    tt,
  ),
)

written : (write_all_routes memory two_repos empty_disk).0 ≡ ok tt
unfolding write_all_routes write_file create_leading_dirs contents_onto
written = refl

reopened :
    (memory.open_read (route_file alice) (write_all_routes memory two_repos empty_disk).1).0
    ≡ done two_lines
unfolding write_all_routes write_file create_leading_dirs contents_onto route_file bundle_root
    repository join clean keep keep_all dir dir_part split drop_empty join_with text_eq insert
    lookup
reopened = refl

get_repositories-write_all_routes_example :
    (back : Repos) × ((get_repositories memory (write_all_routes memory two_repos empty_disk).1).0
      ≡ ok back)
    × ((k : Text)
        → lookup k back ≡ (if has (keys two_repos) k then some (repository alice k) else none))
get_repositories-write_all_routes_example =
    get_repositories-write_all_routes memory memory-IsLawful alice refl two_repos empty_disk
      two_lines two_routes written reopened

-- A disk with two routes.
abbrev two_disk : Memory
two_disk = record empty_disk { files = (codes "/h/git-bundle-server/routes", two_lines) ∷ [] }

two_read : (get_repositories memory two_disk).0 ≡ ok two_repos
unfolding get_repositories read_file_lines read_routes route_file bundle_root join clean keep
    keep_all split drop_empty join_with text_eq insert lookup scan_lines lines_of
two_read = refl

removed : (remove_route memory ab two_disk).0 ≡ ok tt
unfolding remove_route get_repositories read_file_lines read_routes write_all_routes write_file
    create_leading_dirs contents_onto route_file bundle_root repository join clean keep keep_all dir
    dir_part split drop_empty join_with text_eq insert lookup delete scan_lines lines_of
removed = refl

removed_reopened :
    (memory.open_read (route_file alice) (remove_route memory ab two_disk).1).0
    ≡ done (codes "c/d\n")
unfolding remove_route get_repositories read_file_lines read_routes write_all_routes write_file
    create_leading_dirs contents_onto route_file bundle_root repository join clean keep keep_all dir
    dir_part split drop_empty join_with text_eq insert lookup delete scan_lines lines_of
removed_reopened = refl

get_repositories-remove_route_example :
    (has (keys two_repos) ab ≡ true)
    × ((back : Repos) × ((get_repositories memory (remove_route memory ab two_disk).1).0 ≡ ok back)
        × ((k : Text)
            → lookup k back ≡ (
                if ab == k
                then none
                else if has (keys two_repos) k
                then some (repository alice k)
                else none)))
get_repositories-remove_route_example =
    get_repositories-remove_route memory memory-IsLawful alice refl ab two_repos two_disk
      (codes "c/d\n") two_read two_routes removed removed_reopened

-- A disk with one route.
abbrev one_repo : Repos
one_repo = (ab, repository alice ab) ∷ []

abbrev one_disk : Memory
one_disk = record empty_disk { files = (codes "/h/git-bundle-server/routes", codes "a/b\n") ∷ [] }

one_read : (get_repositories memory one_disk).0 ≡ ok one_repo
unfolding get_repositories read_file_lines read_routes route_file bundle_root join clean keep
    keep_all split drop_empty join_with text_eq insert lookup scan_lines lines_of
one_read = refl

created : (create_repository memory cd one_disk).0 ≡ ok (repository alice cd)
unfolding create_repository add_repository get_repositories read_file_lines read_routes
    write_all_routes write_file create_leading_dirs contents_onto route_file bundle_root repository
    join clean keep keep_all dir dir_part split drop_empty join_with text_eq insert lookup
    scan_lines lines_of
created = refl

created_reopened :
    (memory.open_read (route_file alice) (create_repository memory cd one_disk).1).0
    ≡ done two_lines
unfolding create_repository add_repository get_repositories read_file_lines read_routes
    write_all_routes write_file create_leading_dirs contents_onto route_file bundle_root repository
    join clean keep keep_all dir dir_part split drop_empty join_with text_eq insert lookup
    scan_lines lines_of
created_reopened = refl

get_repositories-create_repository_example :
    (repository alice cd ≡ repository alice cd)
    × ((back : Repos) × ((get_repositories memory (create_repository memory cd one_disk).1).0
          ≡ ok back)
        × ((k : Text)
            → lookup k back
              ≡ (if cd == k || has (keys one_repo) k then some (repository alice k) else none)))
unfolding insert text_eq
get_repositories-create_repository_example =
    get_repositories-create_repository memory memory-IsLawful alice refl cd one_repo one_disk
      two_lines (repository alice cd) one_read two_routes refl created created_reopened

-- One route is registered and gone from storage, the other is stored and not registered.
lookup-repaired_example : lookup cd (repaired true one_repo ((cd, repository alice cd) ∷ [])) ≡ (
    if has (keys ((cd, repository alice cd) ∷ [])) cd
    then (if has (keys one_repo) cd
        then lookup cd one_repo
        else if true
        then lookup cd ((cd, repository alice cd) ∷ [])
        else none)
    else none)
lookup-repaired_example = lookup-repaired true one_repo ((cd, repository alice cd) ∷ []) cd

segment_keys_lem_example :
    (has (segment_keys two_repos one_repo).0 ab
      ≡ (has (keys two_repos) ab && has (keys one_repo) ab))
    × (has (segment_keys two_repos one_repo).1 ab
        ≡ (has (keys two_repos) ab && not (has (keys one_repo) ab)))
    × (has (segment_keys two_repos one_repo).2 ab
        ≡ (has (keys one_repo) ab && not (has (keys two_repos) ab)))
segment_keys_lem_example = segment_keys_lem two_repos one_repo ab

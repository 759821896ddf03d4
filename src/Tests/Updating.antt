-- ===== src/Tests/Updating.antt =====
-- The command `update` on a machine in memory: one bundle before, two behind it.
use git_bundle_server.Base.{
  Text, codes, [], ◌∷◌, ◌≡◌, ◌⊎◌, refl, sym, subst, ◌∙◌, some, arith, text_eq, text_Eq, pos, int_Eq,
  eq_ℤ_iff, ok,
}
use git_bundle_server.Base.Assoc.{lookup, insert, delete, Distinct}
use git_bundle_server.Bundles.BundleList.{
  Bundle, BundleList, new_bundle, bundle_name, sort, insert_sorted, sorted_creation_tokens,
  create_distinct_bundle, last, distinct_token,
}
use git_bundle_server.Bundles.Header.{
  parse_header, get_bundle_header, parse_lines, parse_line, parse_version, parse_tip, parse_prereq,
  slice,
}
use git_bundle_server.Bundles.ListFile.{
  IsTextBundle, list_path, repo_list_path, json_path, list_file, entries, entry, write_list_file,
  write_json, lock_all, commit_all, write_bundle_list, get_bundle_list,
}
use git_bundle_server.Bundles.ListFile.Commit.{six}
use git_bundle_server.Bundles.Provider.{collapse_list, create_incremental, get_all_prereqs, negated}
use git_bundle_server.Cmd.Settings.{Ran, run-Ran}
use git_bundle_server.Cmd.{env, stdout, run, build_cmd, run_cmd, apply_options, apply_option}
use git_bundle_server.Commands.{update_run}
use git_bundle_server.Commands.Update.{Renewable}
use git_bundle_server.Commands.Updated.{Made, Unchanged, Updated, update_run-Updated}
use git_bundle_server.Common.FileSystem.{
  commit, write_lock_file_func, create_leading_dirs, read_file_lines, scan_lines, lines_of,
}
use git_bundle_server.Core.Paths.{bundle_root, web_root, repo_root}
use git_bundle_server.Core.Repo.{
  Repository, repository, route_file, read_routes, get_repositories, create_repository,
  add_repository,
}
use git_bundle_server.Git.{
  written, create_incremental_bundle, update_bare_repo, git_command, git_command_with_stdin,
  unlines,
}
use git_bundle_server.Go.Decimal.{show_int, show_nat, digits_onto, parse_int, read_digits}
use git_bundle_server.Go.Path.{join, clean, keep, keep_all, dir, dir_part}
use git_bundle_server.Go.Strings.{
  split, drop_empty, join_with, index, has_prefix, has_suffix, trim_prefix, contains,
}
use git_bundle_server.Go.Utf8.{valid_utf8, valid_from, lead}
use git_bundle_server.Machine.{done, buffered}
use git_bundle_server.Machine.Memory.{Memory, memory, memory-IsLawful}
use git_bundle_server.Tests.Inputs.{
  alice, empty_disk, success, list_of, list_code, list_read, list_tail, bundles_read, coder,
  coder-IsJson, bundles_of-IsWellFormed, list_of-IsText, new_bundle-IsTextBundle,
}

abbrev ab : Text
ab = codes "a/b"

abbrev repo : Repository
repo = repository alice ab

abbrev before_list : BundleList
before_list = list_of (4 ∷ [])

abbrev before_disk : Memory
before_disk = record empty_disk {
  files =
      (codes "/h/git-bundle-server/routes", codes "a/b\n")
      ∷ (codes "/h/git-bundle-server/git/a/b/bundle-list.json", list_code before_list)
      ∷ (codes "/w/bundle-4.bundle", codes "# v2 git bundle\nabc refs/heads/x\n\nPACK")
      ∷ [];
  replies = success ∷ success ∷ [];
}

found : (create_repository memory ab before_disk).0 ≡ ok repo
unfolding update_run create_incremental get_all_prereqs negated create_distinct_bundle last
    distinct_token update_bare_repo create_incremental_bundle git_command git_command_with_stdin
    unlines run build_cmd run_cmd apply_options apply_option get_bundle_header parse_header
    parse_lines parse_line parse_version parse_tip parse_prereq slice parse_int read_digits index
    has_suffix contains collapse_list create_repository add_repository get_repositories
    read_file_lines read_routes route_file get_bundle_list bundle_root web_root repo_root repository
    write_bundle_list lock_all commit_all commit write_lock_file_func create_leading_dirs
    write_list_file write_json list_file entries entry sort insert_sorted sorted_creation_tokens
    new_bundle bundle_name show_int show_nat digits_onto join clean keep keep_all dir dir_part split
    drop_empty join_with has_prefix trim_prefix text_eq insert delete lookup scan_lines lines_of
    list_read list_tail bundles_read written
found = refl

loaded :
    (get_bundle_list memory coder repo (create_repository memory ab before_disk).1).0
    ≡ ok before_list
unfolding update_run create_incremental get_all_prereqs negated create_distinct_bundle last
    distinct_token update_bare_repo create_incremental_bundle git_command git_command_with_stdin
    unlines run build_cmd run_cmd apply_options apply_option get_bundle_header parse_header
    parse_lines parse_line parse_version parse_tip parse_prereq slice parse_int read_digits index
    has_suffix contains collapse_list create_repository add_repository get_repositories
    read_file_lines read_routes route_file get_bundle_list bundle_root web_root repo_root repository
    write_bundle_list lock_all commit_all commit write_lock_file_func create_leading_dirs
    write_list_file write_json list_file entries entry sort insert_sorted sorted_creation_tokens
    new_bundle bundle_name show_int show_nat digits_onto join clean keep keep_all dir dir_part split
    drop_empty join_with has_prefix trim_prefix text_eq insert delete lookup scan_lines lines_of
    list_read list_tail bundles_read written
loaded = refl

updated : (update_run memory coder ab before_disk).0 ≡ ok tt
unfolding update_run create_incremental get_all_prereqs negated create_distinct_bundle last
    distinct_token update_bare_repo create_incremental_bundle git_command git_command_with_stdin
    unlines run build_cmd run_cmd apply_options apply_option get_bundle_header parse_header
    parse_lines parse_line parse_version parse_tip parse_prereq slice parse_int read_digits index
    has_suffix contains collapse_list create_repository add_repository get_repositories
    read_file_lines read_routes route_file get_bundle_list bundle_root web_root repo_root repository
    write_bundle_list lock_all commit_all commit write_lock_file_func create_leading_dirs
    write_list_file write_json list_file entries entry sort insert_sorted sorted_creation_tokens
    new_bundle bundle_name show_int show_nat digits_onto join clean keep keep_all dir dir_part split
    drop_empty join_with has_prefix trim_prefix text_eq insert delete lookup scan_lines lines_of
    list_read list_tail bundles_read written
updated = refl

abbrev after_list : BundleList
after_list = record before_list {
  bundles = insert (pos 7) (new_bundle repo (pos 7)) before_list.bundles;
}

reopened :
    (memory.open_read (json_path repo) (update_run memory coder ab before_disk).1).0
    ≡ done (list_code after_list)
unfolding update_run create_incremental get_all_prereqs negated create_distinct_bundle last
    distinct_token update_bare_repo create_incremental_bundle git_command git_command_with_stdin
    unlines run build_cmd run_cmd apply_options apply_option get_bundle_header parse_header
    parse_lines parse_line parse_version parse_tip parse_prereq slice parse_int read_digits index
    has_suffix contains collapse_list create_repository add_repository get_repositories
    read_file_lines read_routes route_file get_bundle_list bundle_root web_root repo_root repository
    write_bundle_list lock_all commit_all commit write_lock_file_func create_leading_dirs
    write_list_file write_json list_file entries entry sort insert_sorted sorted_creation_tokens
    new_bundle bundle_name show_int show_nat digits_onto join clean keep keep_all dir dir_part split
    drop_empty join_with has_prefix trim_prefix text_eq insert delete lookup scan_lines lines_of
    list_read list_tail bundles_read written
reopened = refl

apart : Distinct (six (list_path repo) (repo_list_path repo) (json_path repo))
unfolding repository repo_root web_root bundle_root join clean keep keep_all split drop_empty
    join_with text_eq
apart = (refl, (refl, (refl, (refl, (refl, (refl, tt))))))

before_list-Renewable : Renewable repo before_list
unfolding valid_utf8 valid_from lead repository repo_root web_root bundle_root new_bundle
    bundle_name show_int show_nat digits_onto join clean keep keep_all split drop_empty join_with
    has_prefix
before_list-Renewable k h =
    let same : pos 4 ≡ k = ground (arith, h, eq_ℤ_iff (pos 4) k) in
    subst (λ j. IsTextBundle (new_bundle repo j)) same (record { uri = refl; filename = refl })

made :
    (create_incremental memory repo before_list
      (get_bundle_list memory coder repo (create_repository memory ab before_disk).1).1).0
    ≡ ok (some (new_bundle repo (pos 7)))
unfolding update_run create_incremental get_all_prereqs negated create_distinct_bundle last
    distinct_token update_bare_repo create_incremental_bundle git_command git_command_with_stdin
    unlines run build_cmd run_cmd apply_options apply_option get_bundle_header parse_header
    parse_lines parse_line parse_version parse_tip parse_prereq slice parse_int read_digits index
    has_suffix contains collapse_list create_repository add_repository get_repositories
    read_file_lines read_routes route_file get_bundle_list bundle_root web_root repo_root repository
    write_bundle_list lock_all commit_all commit write_lock_file_func create_leading_dirs
    write_list_file write_json list_file entries entry sort insert_sorted sorted_creation_tokens
    new_bundle bundle_name show_int show_nat digits_onto join clean keep keep_all dir dir_part split
    drop_empty join_with has_prefix trim_prefix text_eq insert delete lookup scan_lines lines_of
    list_read list_tail bundles_read written
made = refl

search-Made :
    Made memory repo before_list
      (get_bundle_list memory coder repo (create_repository memory ab before_disk).1).1
unfolding valid_utf8 valid_from lead repository repo_root web_root bundle_root new_bundle
    bundle_name show_int show_nat digits_onto join clean keep keep_all split drop_empty join_with
    has_prefix
search-Made b h =
    subst IsTextBundle (made_bundle (new_bundle repo (pos 7)) b (sym made ∙ h))
      (record { uri = refl; filename = refl })
  where
    made_bundle : (x y : Bundle) → ok (some x) ≡ ok (some y) → x ≡ y
    made_bundle x y e = ground arith

update_run-Updated_example :
    Unchanged memory repo before_list
      (get_bundle_list memory coder repo (create_repository memory ab before_disk).1).1
      (update_run memory coder ab before_disk).1
    ⊎ Updated memory coder repo before_list (update_run memory coder ab before_disk).1
update_run-Updated_example =
    update_run-Updated memory memory-IsLawful (λ p c w. refl) coder coder-IsJson
      (λ l. (list_code l, refl)) ab before_list repo (list_code after_list) before_disk apart
      (bundles_of-IsWellFormed (4 ∷ []) (refl, tt)) (list_of-IsText 4 new_bundle-IsTextBundle)
      before_list-Renewable search-Made (λ e. cc) (λ k h. ground (arith, eq_ℤ_iff (pos 4) k)) found
      loaded updated reopened

run-Ran_example :
    Ran memory
      (codes "git")
      (codes "fetch" ∷ [])
      (env (codes "A=1" ∷ []) ∷ stdout buffered ∷ [])
      before_disk
      (memory.look_path (codes "git") before_disk)
      (run memory
        (codes "git")
        (codes "fetch" ∷ [])
        (env (codes "A=1" ∷ []) ∷ stdout buffered ∷ [])
        before_disk)
run-Ran_example =
    run-Ran memory (codes "git") (codes "fetch" ∷ [])
      (env (codes "A=1" ∷ []) ∷ stdout buffered ∷ []) before_disk

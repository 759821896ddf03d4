-- ===== src/Tests/Lists.antt =====
-- Bundle lists, headers and their laws at concrete inputs.
use git_bundle_server.Base.{
  length, ◌≤◌, Text, codes, true, false, [], ◌∷◌, ◌++◌, ◌≡◌, refl, arith, text_eq, ℤ, pos, lt_ℤ,
  eq_ℤ_iff, int_Eq, text_Eq, ok,
}
use git_bundle_server.Base.Assoc.{keys, has, lookup, insert, delete}
use git_bundle_server.Bundles.BundleList.{
  BundleList, new_bundle, bundle_name, sort, insert_sorted, sorted_creation_tokens,
  create_distinct_bundle,
}
use git_bundle_server.Bundles.BundleList.Distinct.{create_distinct_bundle_fresh}
use git_bundle_server.Bundles.BundleList.Sorted.{Ascending, sorted_creation_tokens-Ascending}
use git_bundle_server.Bundles.Header.{
  parse_header, get_bundle_header, parse_lines, parse_line, parse_version, parse_tip, slice,
}
use git_bundle_server.Bundles.Header.Refs.{
  Tip, IsTip, stored, bundle_file, parse_header-bundle_file,
}
use git_bundle_server.Bundles.ListFile.{list_file, list_header}
use git_bundle_server.Bundles.ListFile.Uris.{entry_texts, list_file_uris}
use git_bundle_server.Bundles.Provider.{collapse_list, collapse_keys, max_token, add_base_refs}
use git_bundle_server.Bundles.Provider.Bounds.{collapse_list-length}
use git_bundle_server.Bundles.Provider.Collapse.{IsWellFormed}
use git_bundle_server.Bundles.Provider.Newest.{IsCollapseOf, collapse_list-IsCollapseOf}
use git_bundle_server.Cmd.{run, build_cmd, run_cmd, apply_options, apply_option}
use git_bundle_server.Common.FileSystem.{scan_lines, lines_of}
use git_bundle_server.Git.{
  create_bundle_from_refs, create_branches, git_command, git_command_with_stdin, unlines,
}
use git_bundle_server.Go.Decimal.{show_int, show_nat, digits_onto, parse_int, read_digits}
use git_bundle_server.Go.Path.{join, clean, keep, keep_all, slash, is_elem}
use git_bundle_server.Go.Strings.{split, drop_empty, join_with, index, has_prefix, has_suffix}
use git_bundle_server.Machine.Memory.{Memory, memory}
use git_bundle_server.Tests.Inputs.{repo_ab, empty_disk, success, list_of, bundles_of-IsWellFormed}
use mathlib.Core.List.{Perm}

abbrev one_ref : Text
one_ref = codes "# v2 git bundle\nabc refs/heads/x\n\nPACK"

-- The two oldest bundles of six are on disk; git succeeds twice.
abbrev six_disk : Memory
six_disk = record empty_disk {
  files = (codes "/w/bundle-1.bundle", one_ref) ∷ (codes "/w/bundle-2.bundle", one_ref) ∷ [];
  replies = success ∷ success ∷ [];
}

abbrev six_list : BundleList
six_list = list_of (2 ∷ 1 ∷ 3 ∷ 4 ∷ 5 ∷ 6 ∷ [])

abbrev five_list : BundleList
five_list = list_of (3 ∷ 4 ∷ 5 ∷ 6 ∷ 2 ∷ [])

six_collapsed : (collapse_list memory repo_ab six_list six_disk).0 ≡ ok five_list
unfolding collapse_list collapse_keys get_bundle_header parse_header parse_lines parse_line
    parse_version parse_tip slice scan_lines lines_of split index has_prefix has_suffix parse_int
    read_digits insert delete lookup sort insert_sorted sorted_creation_tokens new_bundle
    bundle_name show_int show_nat digits_onto join clean keep keep_all drop_empty join_with text_eq
    run build_cmd run_cmd apply_options apply_option create_bundle_from_refs create_branches
    git_command git_command_with_stdin unlines max_token add_base_refs
six_collapsed = refl

collapse_list-IsCollapseOf_example :
    (t : ℤ) × IsCollapseOf repo_ab six_list five_list t × IsWellFormed five_list.bundles
collapse_list-IsCollapseOf_example =
    collapse_list-IsCollapseOf memory repo_ab six_list five_list six_disk
      (bundles_of-IsWellFormed (2 ∷ 1 ∷ 3 ∷ 4 ∷ 5 ∷ 6 ∷ [])
        ((refl, (refl, (refl, (refl, (refl, (refl, tt))))))))
      (omega arith) six_collapsed

create_distinct_bundle_fresh_example :
    (t : ℤ) × ((create_distinct_bundle memory repo_ab (list_of (9 ∷ 4 ∷ [])) empty_disk).0
      ≡ ok (new_bundle repo_ab t))
    × ((j : ℤ) → has (keys (list_of (9 ∷ 4 ∷ [])).bundles) j ≡ true → lt_ℤ j t ≡ true)
create_distinct_bundle_fresh_example =
    create_distinct_bundle_fresh memory repo_ab (list_of (9 ∷ 4 ∷ [])) empty_disk (refl, (refl, tt))
      (λ e. cc) (λ j h. ground (arith, eq_ℤ_iff (pos 9) j, eq_ℤ_iff (pos 4) j))

sorted_creation_tokens-Ascending_example :
    Ascending (sorted_creation_tokens (list_of (9 ∷ 4 ∷ 6 ∷ [])))
    × Perm
        (sorted_creation_tokens (list_of (9 ∷ 4 ∷ 6 ∷ [])))
        (keys (list_of (9 ∷ 4 ∷ 6 ∷ [])).bundles)
sorted_creation_tokens-Ascending_example =
    sorted_creation_tokens-Ascending (list_of (9 ∷ 4 ∷ 6 ∷ [])) (refl, (refl, (refl, tt)))

abbrev main_tip : Tip
main_tip = record { first = b'a'; more = codes "bc"; stem = codes "refs/heads/mai"; last = b'n' }

main_tip-IsTip : IsTip main_tip
main_tip-IsTip = record {
  plain = (refl, refl, refl);
  one_word = refl;
  is_line = record { no_newline = refl; no_cr = refl; short = omega arith };
}

parse_header-bundle_file_example :
    parse_header (bundle_file (main_tip ∷ []) (codes "PACK"))
    ≡ ok (record { version = pos 2; refs = stored (main_tip ∷ []) []; prereq_commits = [] })
parse_header-bundle_file_example =
    parse_header-bundle_file (main_tip ∷ []) (codes "PACK") (main_tip-IsTip, tt)

list_file_uris_example :
    (list_file (list_of (9 ∷ 4 ∷ [])) (join (codes "/" ∷ codes "a/b" ∷ []) ++ codes "/") ≡ (
      list_header (list_of (9 ∷ 4 ∷ []))
          ++ entry_texts bundle_name (sorted_creation_tokens (list_of (9 ∷ 4 ∷ []))),
      false,
    ))
    × (list_file (list_of (9 ∷ 4 ∷ [])) (join (codes "/" ∷ codes "a/b" ∷ [])) ≡ (
      list_header (list_of (9 ∷ 4 ∷ []))
          ++ entry_texts
              (λ k. codes "b" ++ slash ∷ bundle_name k)
              (sorted_creation_tokens (list_of (9 ∷ 4 ∷ []))),
      false,
    ))
unfolding lookup text_eq is_elem
list_file_uris_example =
    list_file_uris (codes "a") (codes "b") refl refl repo_ab (list_of (9 ∷ 4 ∷ [])) refl
      (λ k h. ground (arith, eq_ℤ_iff (pos 9) k, eq_ℤ_iff (pos 4) k))

collapse_list-length_example : length five_list.bundles ≤ 5
collapse_list-length_example =
    collapse_list-length memory repo_ab six_list five_list six_disk
      (bundles_of-IsWellFormed (2 ∷ 1 ∷ 3 ∷ 4 ∷ 5 ∷ 6 ∷ [])
        ((refl, (refl, (refl, (refl, (refl, (refl, tt))))))))
      six_collapsed

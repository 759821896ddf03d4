-- ===== src/Tests/Files.antt =====
-- Lock files, published bundle lists and git at concrete inputs.
use git_bundle_server.Base.{
  eq_ℤ_iff, subst, Text, codes, true, [], ◌∷◌, none, some, if◌then◌else◌, ◌≡◌, refl, arith, text_eq,
  pos, int_Eq, ◌==◌, text_Eq, ok, err, message,
}
use git_bundle_server.Base.Assoc.{lookup, insert, delete, Distinct}
use git_bundle_server.Bundles.BundleList.{
  BundleList, new_bundle, bundle_name, sort, insert_sorted, sorted_creation_tokens,
}
use git_bundle_server.Bundles.ListFile.{
  IsTextBundle, Agree, list_path, repo_list_path, json_path, request, request_with_slash, list_file,
  entries, entry, write_list_file, write_json, lock_all, commit_all, write_bundle_list,
  get_bundle_list,
}
use git_bundle_server.Bundles.ListFile.Atomic.{Whole, commit_all-Whole}
use git_bundle_server.Bundles.ListFile.Commit.{six, commit_all-eq-ok}
use git_bundle_server.Bundles.ListFile.Contents.{
  Published, write_bundle_list-Published, get_bundle_list-write_bundle_list,
}
use git_bundle_server.Bundles.ListFile.Publish.{lock_paths, lock_all-Keeps}
use git_bundle_server.Common.FileSystem.{commit, create_leading_dirs, write_lock_file_func}
use git_bundle_server.Common.FileSystem.Lock.{
  lock_file, write_lock_file_func-Keeps, write_lock_file_func-eq-ok,
}
use git_bundle_server.Git.{create_bundle, exited}
use git_bundle_server.Git.Laws.{create_bundle-run}
use git_bundle_server.Go.Decimal.{show_int, show_nat, digits_onto}
use git_bundle_server.Go.Path.{join, clean, keep, keep_all, dir, dir_part}
use git_bundle_server.Go.Strings.{split, drop_empty, join_with, has_prefix, trim_prefix}
use git_bundle_server.Go.Utf8.{valid_utf8, valid_from, lead}
use git_bundle_server.Machine.{Run, done, overlay, or_empty, call}
use git_bundle_server.Machine.Frame.{Keeps}
use git_bundle_server.Machine.Memory.{Memory, memory, memory-IsLawful}
use git_bundle_server.Bundles.Provider.{collapse_list}
use git_bundle_server.Commands.{publish}
use git_bundle_server.Commands.Update.{Renewable, IsKept, with_bundle, publish-IsKept}
use git_bundle_server.Tests.Inputs.{
  bundles_of-IsWellFormed, list_of-IsText, new_bundle-IsTextBundle, repo_ab, empty_disk, list_of,
  coder, coder-IsJson, list_code,
}

-- A disk on which a killed process left a lock file behind.
abbrev stale_disk : Memory
stale_disk = record empty_disk { files = (codes "/w/bundle-list.lock", codes "old") ∷ [] }

abbrev one_list : BundleList
one_list = list_of (4 ∷ [])

abbrev one_text : Text
one_text = list_code one_list

paths_apart : Distinct (six (list_path repo_ab) (repo_list_path repo_ab) (json_path repo_ab))
unfolding join clean keep keep_all split drop_empty join_with text_eq
paths_apart = (refl, (refl, (refl, (refl, (refl, (refl, tt))))))

stale_written : (write_bundle_list memory coder one_list repo_ab stale_disk).0 ≡ ok tt
unfolding write_bundle_list lock_all commit_all commit write_lock_file_func create_leading_dirs
    write_list_file write_json list_file entries entry sort insert_sorted sorted_creation_tokens
    new_bundle bundle_name show_int show_nat digits_onto join clean keep keep_all dir dir_part split
    drop_empty join_with has_prefix trim_prefix text_eq insert delete lookup
stale_written = refl

write_bundle_list-Published_example :
    Published memory memory-IsLawful coder one_list repo_ab
      (list_file one_list (request_with_slash repo_ab)).0
      (list_file one_list (request repo_ab)).0
      one_text
      stale_disk
      (write_bundle_list memory coder one_list repo_ab stale_disk).1
write_bundle_list-Published_example =
    write_bundle_list-Published memory memory-IsLawful (λ p c w. refl) coder one_list repo_ab
      one_text stale_disk paths_apart refl stale_written

stale_read :
    (memory.open_read
      (json_path repo_ab)
      (write_bundle_list memory coder one_list repo_ab stale_disk).1).0
    ≡ done one_text
unfolding write_bundle_list lock_all commit_all commit write_lock_file_func create_leading_dirs
    write_list_file write_json list_file entries entry sort insert_sorted sorted_creation_tokens
    new_bundle bundle_name show_int show_nat digits_onto join clean keep keep_all dir dir_part split
    drop_empty join_with has_prefix trim_prefix text_eq insert delete lookup
stale_read = refl

get_bundle_list-write_bundle_list_example :
    (back : BundleList) × ((get_bundle_list memory coder repo_ab
        (write_bundle_list memory coder one_list repo_ab stale_disk).1).0
      ≡ ok back)
    × Agree back one_list
get_bundle_list-write_bundle_list_example =
    get_bundle_list-write_bundle_list memory memory-IsLawful (λ p c w. refl) coder coder-IsJson
      one_list repo_ab one_text one_text stale_disk paths_apart
      (list_of-IsText 4 new_bundle-IsTextBundle) refl stale_written stale_read

lock_all-Keeps_example : Keeps memory (lock_paths repo_ab) (lock_all memory coder one_list repo_ab)
lock_all-Keeps_example = lock_all-Keeps memory memory-IsLawful coder one_list repo_ab

-- Three lock files, and an old file.
abbrev three_locks : Memory
three_locks = record empty_disk {
  files =
      (codes "/p.lock", codes "1")
      ∷ (codes "/q.lock", codes "2")
      ∷ (codes "/r.lock", codes "3")
      ∷ (codes "/q", codes "0")
      ∷ [];
}

commit_run :
    (commit_all memory
      (lock_file (codes "/p"), lock_file (codes "/q"), lock_file (codes "/r"))
      three_locks).0
    ≡ ok tt
unfolding commit_all commit insert delete lookup text_eq
commit_run = refl

names_apart : Distinct (six (codes "/p") (codes "/q") (codes "/r"))
unfolding text_eq
names_apart = (refl, (refl, (refl, (refl, (refl, (refl, tt))))))

commit_all-eq-ok_example :
    let w' =
      (commit_all memory
        (lock_file (codes "/p"), lock_file (codes "/q"), lock_file (codes "/r"))
        three_locks).1 in
    (memory.file w' (codes "/p") ≡ memory.file three_locks (codes "/p.lock"))
    × (memory.file w' (codes "/q") ≡ memory.file three_locks (codes "/q.lock"))
    × (memory.file w' (codes "/r") ≡ memory.file three_locks (codes "/r.lock"))
    × (memory.file w' (codes "/p.lock") ≡ none)
    × (memory.file w' (codes "/q.lock") ≡ none)
    × (memory.file w' (codes "/r.lock") ≡ none)
commit_all-eq-ok_example =
    commit_all-eq-ok memory memory-IsLawful (codes "/p") (codes "/q") (codes "/r") names_apart
      three_locks commit_run

write_lock_file_func-Keeps_example :
    Keeps memory
      (codes "/p.lock" ∷ [])
      (write_lock_file_func memory (codes "/p") (λ lock. call (memory.write lock (codes "new"))))
unfolding lookup insert
write_lock_file_func-Keeps_example =
    write_lock_file_func-Keeps memory memory-IsLawful (codes "/p")
      (λ lock. call (memory.write lock (codes "new")))
      (λ w q h. memory-IsLawful.write_only (codes "/p.lock") (codes "new") w q (ground arith))

lock_written :
    (write_lock_file_func memory
      (codes "/p")
      (λ lock. call (memory.write lock (codes "new")))
      three_locks).0
    ≡ ok (lock_file (codes "/p"))
unfolding write_lock_file_func create_leading_dirs dir dir_part clean keep keep_all split drop_empty
    join_with lookup insert text_eq
lock_written = refl

write_lock_file_func-eq-ok_example :
    (lock_file (codes "/p") ≡ lock_file (codes "/p"))
    × (memory.file
          (write_lock_file_func memory
            (codes "/p")
            (λ lock. call (memory.write lock (codes "new")))
            three_locks).1
          (codes "/p.lock")
        ≡ some (overlay (codes "new") (or_empty (memory.file three_locks (codes "/p.lock")))))
write_lock_file_func-eq-ok_example =
    write_lock_file_func-eq-ok memory memory-IsLawful (codes "/p") (codes "new")
      (λ lock. call (memory.write lock (codes "new"))) three_locks (lock_file (codes "/p"))
      (λ lock w e. memory-IsLawful.write_done lock (codes "new") w refl) lock_written

-- Git refuses an empty bundle, and says so on its standard error.
abbrev refusal : Run
refusal = record {
  code = pos 128;
  stdout = [];
  stderr = codes "fatal: Refusing to create empty bundle.\n";
}

create_bundle-run_example :
    (create_bundle memory
      (codes "/r")
      (codes "/w/b")
      (record empty_disk { replies = refusal ∷ [] })).0
    ≡ (if refusal.code == pos 0 then ok true else err (message (exited refusal.code)))
create_bundle-run_example =
    create_bundle-run memory (codes "git") (codes "/r") (codes "/w/b")
      (record empty_disk { replies = refusal ∷ [] }) refusal refl refl

-- The rename onto the second file is refused, when the first is already done.
abbrev refused_disk : Memory
refused_disk = record three_locks { refused = codes "/p" ∷ [] }

commit_all-Whole_example :
    let w' =
      (commit_all memory
        (lock_file (codes "/p"), lock_file (codes "/q"), lock_file (codes "/r"))
        refused_disk).1 in
    Whole memory refused_disk w' (codes "/p")
    × Whole memory refused_disk w' (codes "/q")
    × Whole memory refused_disk w' (codes "/r")
commit_all-Whole_example =
    commit_all-Whole memory memory-IsLawful (codes "/p") (codes "/q") (codes "/r") names_apart
      refused_disk

-- The list of the test above with a bundle of token 7 on top
abbrev two_list : BundleList
two_list = with_bundle one_list repo_ab (pos 7)

publish_run :
    ((publish memory coder repo_ab one_list (some (new_bundle repo_ab (pos 7))) stale_disk).0
      ≡ ok tt)
    × ((memory.open_read
          (json_path repo_ab)
          (publish memory coder repo_ab one_list
            (some (new_bundle repo_ab (pos 7)))
            stale_disk).1).0
        ≡ done (list_code two_list))
unfolding write_bundle_list lock_all commit_all commit write_lock_file_func create_leading_dirs
    write_list_file write_json list_file entries entry sort insert_sorted sorted_creation_tokens
    new_bundle bundle_name show_int show_nat digits_onto join clean keep keep_all dir dir_part split
    drop_empty join_with has_prefix trim_prefix text_eq insert delete lookup collapse_list
publish_run = (refl, refl)

seventh-IsTextBundle : IsTextBundle (new_bundle repo_ab (pos 7))
unfolding valid_utf8 valid_from lead new_bundle bundle_name show_int show_nat digits_onto join clean
    keep keep_all split drop_empty join_with has_prefix
seventh-IsTextBundle = record { uri = refl; filename = refl }

one_list-Renewable : Renewable repo_ab one_list
one_list-Renewable k h =
    let same : pos 4 ≡ k = ground (arith, h, eq_ℤ_iff (pos 4) k) in
    subst (λ j. IsTextBundle (new_bundle repo_ab j)) same new_bundle-IsTextBundle

publish-IsKept_example :
    (kept : BundleList) × IsKept repo_ab (pos 7) kept
    × (back : BundleList) × ((get_bundle_list memory coder repo_ab
          (publish memory coder repo_ab one_list
            (some (new_bundle repo_ab (pos 7)))
            stale_disk).1).0
        ≡ ok back)
    × Agree back kept
publish-IsKept_example =
    publish-IsKept memory memory-IsLawful (λ p c w. refl) coder coder-IsJson
      (λ l. (list_code l, refl)) one_list repo_ab (pos 7) (list_code two_list) stale_disk
      paths_apart (bundles_of-IsWellFormed (4 ∷ []) (refl, tt))
      (list_of-IsText 4 new_bundle-IsTextBundle) one_list-Renewable seventh-IsTextBundle refl
      (λ k h. ground (arith, eq_ℤ_iff (pos 4) k)) publish_run.0 publish_run.1

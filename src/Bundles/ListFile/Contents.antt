-- ===== src/Bundles/ListFile/Contents.antt =====
-- What the published files hold when `WriteBundleList` succeeds, and what `GetBundleList` reads.
use git_bundle_server.Base.{
  false, Text, List, [], ◌∷◌, Option, some, none, ◌≡◌, ◌∙◌, ap, sym, arith, text_Eq, text_eq,
  text_eq_sym, length, drop, M, Outcome, ok, >>=-eq-ok, >>=-ok, return,
}
use git_bundle_server.Base.Assoc.{Distinct}
use git_bundle_server.Bundles.BundleList.{BundleList}
use git_bundle_server.Bundles.ListFile.{
  Json, IsJson, IsText, Agree, list_path, repo_list_path, json_path, request, request_with_slash,
  list_file, write_list_file, write_json, lock_list, lock_repo_list, lock_json, lock_all,
  commit_all, write_bundle_list, get_bundle_list,
}
use git_bundle_server.Bundles.ListFile.Commit.{six, commit_all-eq-ok}
use git_bundle_server.Bundles.ListFile.Publish.{
  step, step-lock_file, step-eq-ok, or_rollback-eq-ok, after_list, after_repo_list,
  write_list_file-Keeps, write_json-Keeps,
}
use git_bundle_server.Common.FileSystem.{LockFile, write_lock_file_func}
use git_bundle_server.Common.FileSystem.Lock.{
  lock_of, lock_file, Writes, write_lock_file_func-Keeps,
}
use git_bundle_server.Core.Repo.{Repository}
use git_bundle_server.Machine.{Machine, IsLawful, done, overlay, or_empty}
use git_bundle_server.Machine.Frame.{Keeps}

-- No write fails. The code reads no error of the writes to the two list files.
abbrev pub WritesSucceed : Machine → Type 0
WritesSucceed m = (p c : Text) (w : m.World) → (m.write p c w).0 ≡ done tt

module _ (m : Machine) (lawful : IsLawful m) where
  step-others :
      (filename : Text) (write_func : Text → M m.World (Unit {0})) (ls : List LockFile)
      (w : m.World) (l : LockFile)
      → ((lock : Text) → Keeps m (lock ∷ []) (write_func lock))
      → (step m lawful filename write_func ls w).0 ≡ ok l
      → (x : Text) → text_eq (lock_of filename) x ≡ false
      → m.file (step m lawful filename write_func ls w).1 x ≡ m.file w x
  step-others filename write_func ls w l keeps e x h =
      let a = write_lock_file_func m filename write_func in
      ap (λ (s : Outcome LockFile × m.World). m.file s.1 x) (or_rollback-eq-ok m lawful ls a w e).1
      ∙ write_lock_file_func-Keeps m lawful filename write_func (keeps (lock_of filename)) w x
          (ground arith)

  write_list_file-Writes :
      WritesSucceed m
      → (list : BundleList) (uri : Text)
      → Writes m (list_file list uri).0 (write_list_file m list uri)
  unfolding write_list_file
  write_list_file-Writes reliable list uri lock w e = ground (
    arith,
    lawful.write_done lock (list_file list uri).0 w,
    reliable lock (list_file list uri).0 w,
  )

  write_json-Writes :
      (j : Json) (list : BundleList) (text : Text)
      → j.marshal list ≡ done text
      → Writes m text (write_json m j list)
  unfolding write_json
  write_json-Writes j list text h lock w e = ground (arith, lawful.write_done lock text w, h, e)

  module _ (j : Json) (list : BundleList) (repo : Repository) (t₁ t₂ t₃ : Text) (w : m.World) where
    abbrev p : Text
    p = list_path repo

    abbrev q : Text
    q = repo_list_path repo

    abbrev r : Text
    r = json_path repo

    abbrev over : Text → Text → Option Text
    over text path = some (overlay text (or_empty (m.file w (lock_of path))))

    lock_all-eq-ok :
        Distinct (six p q r)
        → Writes m t₁ (write_list_file m list (request_with_slash repo))
        → Writes m t₂ (write_list_file m list (request repo))
        → Writes m t₃ (write_json m j list)
        → (locks : LockFile × LockFile × LockFile) → (lock_all m j list repo w).0 ≡ ok locks
        → (locks ≡ (lock_file p, lock_file q, lock_file r))
          × (m.file (lock_all m j list repo w).1 (lock_of p) ≡ over t₁ p)
          × (m.file (lock_all m j list repo w).1 (lock_of q) ≡ over t₂ q)
          × (m.file (lock_all m j list repo w).1 (lock_of r) ≡ over t₃ r)
    unfolding lock_all
    lock_all-eq-ok apart h₁ h₂ h₃ locks e =
        let write₁ = write_list_file m list (request_with_slash repo) in
        let write₂ = write_list_file m list (request repo) in
        let write₃ = write_json m j list in
        let (l₁, a, e₁) = >>=-eq-ok (lock_list m list repo) (after_list m lawful j list repo) w e in
        let w₁ = (lock_list m list repo w).1 in
        let (l₂, b, e₂) =
          >>=-eq-ok (lock_repo_list m list repo l₁) (after_repo_list m lawful j list repo l₁) w₁
            e₁ in
        let w₂ = (lock_repo_list m list repo l₁ w₁).1 in
        let (l₃, c, e₃) =
          >>=-eq-ok (lock_json m j list repo l₁ l₂) (λ l. return (l₁, l₂, l)) w₂ e₂ in
        let w₃ = (lock_json m j list repo l₁ l₂ w₂).1 in
        let run =
          >>=-ok (lock_list m list repo) (after_list m lawful j list repo) w a
          ∙ >>=-ok (lock_repo_list m list repo l₁) (after_repo_list m lawful j list repo l₁) w₁ b
          ∙ >>=-ok (lock_json m j list repo l₁ l₂) (λ l. return (l₁, l₂, l)) w₂ c in
        let content₁ = step-eq-ok m lawful p t₁ write₁ [] w l₁ h₁ a in
        let content₂ = step-eq-ok m lawful q t₂ write₂ (l₁ ∷ []) w₁ l₂ h₂ b in
        let content₃ = step-eq-ok m lawful r t₃ write₃ (l₁ ∷ l₂ ∷ []) w₂ l₃ h₃ c in
        let others₁ =
          step-others p write₁ [] w l₁
            (write_list_file-Keeps m lawful list (request_with_slash repo)) a in
        let others₂ =
          step-others q write₂ (l₁ ∷ []) w₁ l₂ (write_list_file-Keeps m lawful list (request repo))
            b in
        let others₃ =
          step-others r write₃ (l₁ ∷ l₂ ∷ []) w₂ l₃ (write_json-Keeps m lawful j list) c in
        let at : (x : Text) → m.file (lock_all m j list repo w).1 x ≡ m.file w₃ x =
          λ x. ap (λ (s : Outcome (LockFile × LockFile × LockFile) × m.World). m.file s.1 x) run in
        let qp : text_eq (lock_of q) (lock_of p) ≡ false = ground arith in
        let rp : text_eq (lock_of r) (lock_of p) ≡ false = ground arith in
        let rq : text_eq (lock_of r) (lock_of q) ≡ false = ground arith in
        let pq = text_eq_sym (lock_of p) (lock_of q) ∙ qp in
        let pr = text_eq_sym (lock_of p) (lock_of r) ∙ rp in
        let qr = text_eq_sym (lock_of q) (lock_of r) ∙ rq in
        let before : Text → Option Text → Option Text = λ t o. some (overlay t (or_empty o)) in
        (
          cc (
            e₃,
            step-lock_file m lawful p write₁ [] w l₁ a,
            step-lock_file m lawful q write₂ (l₁ ∷ []) w₁ l₂ b,
            step-lock_file m lawful r write₃ (l₁ ∷ l₂ ∷ []) w₂ l₃ c,
          ),
          at (lock_of p) ∙ others₃ (lock_of p) rp ∙ others₂ (lock_of p) qp ∙ content₁,
          at (lock_of q)
              ∙ others₃ (lock_of q) rq
              ∙ content₂
              ∙ ap (before t₂) (others₁ (lock_of q) pq),
          at (lock_of r)
              ∙ content₃
              ∙ ap (before t₃) (others₂ (lock_of r) qr ∙ others₁ (lock_of r) pr),
        )

    -- What the three files hold, and that no lock file is left.
    abbrev pub Published : m.World → Type 0
    Published w' =
        (m.file w' p ≡ over t₁ p)
        × (m.file w' q ≡ over t₂ q)
        × (m.file w' r ≡ over t₃ r)
        × (m.file w' (lock_of p) ≡ none)
        × (m.file w' (lock_of q) ≡ none)
        × (m.file w' (lock_of r) ≡ none)

    written-Published :
        Distinct (six p q r)
        → Writes m t₁ (write_list_file m list (request_with_slash repo))
        → Writes m t₂ (write_list_file m list (request repo))
        → Writes m t₃ (write_json m j list)
        → (write_bundle_list m j list repo w).0 ≡ ok tt
        → Published (write_bundle_list m j list repo w).1
    unfolding write_bundle_list
    written-Published apart h₁ h₂ h₃ e =
        let (locks, a, e₁) = >>=-eq-ok (lock_all m j list repo) (commit_all m) w e in
        let (same, first, second, third) = lock_all-eq-ok apart h₁ h₂ h₃ locks a in
        let w₁ = (lock_all m j list repo w).1 in
        let run = >>=-ok (lock_all m j list repo) (commit_all m) w a in
        let locks₀ : LockFile × LockFile × LockFile = (lock_file p, lock_file q, lock_file r) in
        let run₀ : write_bundle_list m j list repo w ≡ commit_all m locks₀ w₁ =
          run ∙ ap (λ (l : LockFile × LockFile × LockFile). commit_all m l w₁) same in
        let committed : (commit_all m locks₀ w₁).0 ≡ ok tt =
          sym (ap (λ (s : Outcome (Unit {0}) × m.World). s.0) run₀) ∙ e in
        let (file₁, file₂, file₃, gone₁, gone₂, gone₃) =
          commit_all-eq-ok m lawful p q r apart w₁ committed in
        let at : (x : Text)
            → m.file (write_bundle_list m j list repo w).1 x ≡ m.file (commit_all m locks₀ w₁).1 x =
          λ x. ap (λ (s : Outcome (Unit {0}) × m.World). m.file s.1 x) run₀ in
        (
          at p ∙ file₁ ∙ first,
          at q ∙ file₂ ∙ second,
          at r ∙ file₃ ∙ third,
          at (lock_of p) ∙ gone₁,
          at (lock_of q) ∙ gone₂,
          at (lock_of r) ∙ gone₃,
        )

  -- On a lawful machine where no write fails, for six paths that differ: if `WriteBundleList`
  -- succeeds, each of the three files holds its text, over what an old lock file of it held, and no
  -- lock file is left.
  pub write_bundle_list-Published :
      WritesSucceed m
      → (j : Json) (list : BundleList) (repo : Repository) (text : Text) (w : m.World)
      → Distinct (six (list_path repo) (repo_list_path repo) (json_path repo))
      → j.marshal list ≡ done text
      → (write_bundle_list m j list repo w).0 ≡ ok tt
      → Published j list repo
          (list_file list (request_with_slash repo)).0
          (list_file list (request repo)).0
          text
          w
          (write_bundle_list m j list repo w).1
  write_bundle_list-Published reliable j list repo text w apart h e =
      written-Published j list repo _ _ text w apart
        (write_list_file-Writes reliable list (request_with_slash repo))
        (write_list_file-Writes reliable list (request repo)) (write_json-Writes j list text h) e

  -- On a lawful machine where no write fails, for six paths that differ, a list whose texts are all
  -- valid UTF-8, and a JSON decoder that reads such a list back from what it was encoded to: behind
  -- a `WriteBundleList` that succeeds, and once the file can be opened, the list that
  -- `GetBundleList` reads agrees with the one that was written, whatever an old lock file held.
  pub get_bundle_list-write_bundle_list :
      WritesSucceed m
      → (j : Json) → IsJson j
      → (list : BundleList) (repo : Repository) (text c : Text) (w : m.World)
      → Distinct (six (list_path repo) (repo_list_path repo) (json_path repo))
      → IsText list
      → j.marshal list ≡ done text
      → (write_bundle_list m j list repo w).0 ≡ ok tt
      → (m.open_read (json_path repo) (write_bundle_list m j list repo w).1).0 ≡ done c
      → (back : BundleList) × ((get_bundle_list m j repo (write_bundle_list m j list repo w).1).0
          ≡ ok back)
        × Agree back list
  unfolding get_bundle_list
  get_bundle_list-write_bundle_list reliable j is_json list repo text c w apart texts h e opened =
      let w' = (write_bundle_list m j list repo w).1 in
      let published = write_bundle_list-Published reliable j list repo text w apart h e in
      let old = or_empty (m.file w (lock_of (json_path repo))) in
      let content : some c ≡ some (overlay text old) =
        sym (lawful.open_read_done (json_path repo) w' c opened) ∙ published.2 in
      let (back, decoded, agree) =
        is_json.decode-marshal list text (drop (length text) old) texts h in
      (back, ground (arith, opened, content, decoded), agree)

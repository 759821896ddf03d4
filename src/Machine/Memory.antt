-- ===== src/Machine/Memory.antt =====
-- A machine whose files are a map, for the tests: a call on a refused path fails (a write to an
-- open file does not), time goes by one second at each look, and the replies of child processes are
-- given in advance.
use git_bundle_server.Base.{
  Text, codes, false, List, [], ◌∷◌, ◌++◌, Option, none, some, ◌≡◌, refl, ℤ, inc, Error, errno,
  not_exist, other, if◌then◌else◌, ◌==◌, inl, text_Eq, text_eq_refl, text_eq_iff, arith,
}
use git_bundle_server.Base.Assoc.{lookup, insert, delete, has, lookup-insert, lookup-delete}
use git_bundle_server.Machine.{
  Machine, IsLawful, Reply, done, failed, DirEntry, Command, Run, Exit, unstarted, ended, overlay,
  or_empty,
}

pub record Memory : Type 0 where
  pub files : List (Text × Text)
  pub dirs : List (Text × List DirEntry)
  pub refused : List Text
  pub replies : List Run
  pub commands : List Command
  pub clock : ℤ

abbrev pub denied : Error
denied = errno (other (codes "permission denied"))

abbrev guard : {A : Type 0} → Text → Memory → Reply A × Memory → Reply A × Memory
guard p w r = if has w.refused p then (failed denied, w) else r

abbrev fetch : Text → Option Text → Reply Text
fetch p none = failed (errno not_exist)
fetch p (some c) = done c

abbrev exists : Option Text → Reply (Unit {0})
exists none = failed (errno not_exist)
exists (some c) = done tt

abbrev listing : Option (List DirEntry) → Reply (List DirEntry)
listing none = failed (errno not_exist)
listing (some es) = done es

abbrev put : Text → Text → Memory → Memory
put p c w = record w { files = insert p c w.files }

abbrev take_reply : List Run → Memory → Exit × Memory
take_reply [] w = (unstarted (errno not_exist), w)
take_reply (r ∷ rs) w = (ended r, record w { replies = rs })

abbrev moved : Text → Text → Option Text → Memory → Reply (Unit {0}) × Memory
moved p q none w = (failed (errno not_exist), w)
moved p q (some c) w = (done tt, record w { files = insert q c (delete p w.files) })

-- The user and the executable are the same for every test.
abbrev pub memory : Machine
memory = record {
  World = Memory;
  file = λ w p. lookup p w.files;
  mkdir_all = λ p w. guard p w (done tt, w);
  write_file = λ p c w. guard p w (done tt, put p c w);
  open_create = λ p w. guard p w (done tt, put p (or_empty (lookup p w.files)) w);
  write = λ p c w. (done tt, put p (overlay c (or_empty (lookup p w.files))) w);
  close = λ p w. (done tt, w);
  rename = λ p q w. guard q w (moved p q (lookup p w.files) w);
  remove = λ p w. guard p w (exists (lookup p w.files), record w { files = delete p w.files });
  remove_all = λ p w. guard p w (done tt, record w { files = delete p w.files });
  open_read = λ p w. guard p w (fetch p (lookup p w.files), w);
  stat = λ p w. guard p w (exists (lookup p w.files), w);
  read_dir = λ p w. guard p w (listing (lookup p w.dirs), w);
  executable = done (codes "/bin/git-bundle-server");
  current_user = done (record { home_dir = codes "/h"; uid = codes "1000" });
  now = λ w. (w.clock, record w { clock = inc w.clock });
  look_path = λ program w. done program;
  exec = λ c w. take_reply w.replies (record w { commands = w.commands ++ c ∷ [] });
}

memory_only :
    (p q c : Text) (w : Memory)
    → (p == q) ≡ false
    → lookup q (insert p c w.files) ≡ lookup q w.files
memory_only p q c w h = rw (lookup-insert p q c w.files, h)

pub memory-IsLawful : IsLawful memory
memory-IsLawful = record {
  mkdir_all_reads = λ p w q. ground arith;
  close_reads = λ p w q. refl;
  open_read_reads = λ p w q. ground arith;
  stat_reads = λ p w q. ground arith;
  write_file_only = λ p c w q h. ground (arith, memory_only p q c w);
  open_create_only = λ p w q h. ground (arith, memory_only p q (or_empty (lookup p w.files)) w);
  write_only =
      λ p c w q h. ground (arith, memory_only p q (overlay c (or_empty (lookup p w.files))) w);
  remove_only = λ p w q h. ground (arith, lookup-delete p q w.files);
  rename_only = λ p q w r h k. ground (
    arith,
    lookup-insert q r (or_empty (lookup p w.files)) (delete p w.files),
    lookup-delete p r w.files,
  );
  write_file_done = λ p c w h. ground (arith, lookup-insert p p c w.files, text_eq_refl p);
  open_create_done = λ p w h.
      ground (arith, lookup-insert p p (or_empty (lookup p w.files)) w.files, text_eq_refl p);
  write_done = λ p c w h.
      ground (
        arith,
        lookup-insert p p (overlay c (or_empty (lookup p w.files))) w.files,
        text_eq_refl p,
      );
  rename_done = λ p q w h.
      ground
        (arith, lookup-insert q q (or_empty (lookup p w.files)) (delete p w.files), text_eq_refl q);
  rename_gone = λ p q w h k. ground (
    arith,
    lookup-insert q p (or_empty (lookup p w.files)) (delete p w.files),
    lookup-delete p p w.files,
    text_eq_refl p,
    text_eq_iff p q,
    text_eq_iff q p,
  );
  rename_failed = λ p q w e h. inl (ground arith);
  remove_done = λ p w h. ground (arith, lookup-delete p p w.files, text_eq_refl p);
  open_read_done = λ p w c h. ground arith;
  open_read_missing = λ p w h. ground arith;
}

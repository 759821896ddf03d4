-- ===== src/Machine.antt =====
-- What the program asks of the operating system, through packages os, os/exec, os/user and time.
-- None of it is code of the repository, so it is a parameter: any machine whose calls keep the
-- laws of `IsLawful`, which are those that POSIX and Go document.
pub mod Memory
pub mod Frame
use git_bundle_server.Base.{
  ℕ, Text, Bool, true, false, List, [], ◌∷◌, ◌++◌, Option, none, some, ◌≡◌, ℤ, Error, errno,
  not_exist, Outcome, ok, err, M, length, drop, ◌==◌, text_Eq, ◌⊎◌,
}

-- A Go result `(A, error)`.
pub data Reply {ℓ} (A : Type ℓ) : Type ℓ where
  done : A → Reply A
  failed : Error → Reply A

-- The fields of `user.User` that are read.
pub record User : Type 0 where
  pub home_dir : Text
  pub uid : Text

-- A `fs.DirEntry`.
pub record DirEntry : Type 0 where
  pub name : Text
  pub is_dir : Bool

-- Where an output of a child process goes: to nowhere, to that of this process, or to a buffer.
pub data Stream : Type 0 where
  discarded inherited buffered : Stream

-- An `exec.Cmd`. No environment stands for that of this process; an environment that is given is
-- the whole one of the child.
pub record Command : Type 0 where
  pub program : Text
  pub args : List Text
  pub stdin : Text
  pub stdout : Stream
  pub stderr : Stream
  pub env : List Text

-- The exit status, and what was written to the two outputs.
pub record Run : Type 0 where
  pub code : ℤ
  pub stdout : Text
  pub stderr : Text

-- What comes of `Start` and `Wait`: the process did not start, it ran to its end, or `Wait` failed.
pub data Exit : Type 0 where
  unstarted : Error → Exit
  ended : Run → Exit
  broken : Error → Exit

-- What a file holds after `new` was written from its start, with no truncation.
abbrev pub overlay : Text → Text → Text
overlay new old = new ++ drop (length new) old

abbrev pub or_empty : Option Text → Text
or_empty none = []
or_empty (some t) = t

pub record Machine : Type 1 where
  pub World : Type 0
  -- The bytes of the regular file at a path.
  pub file : World → Text → Option Text
  -- `os.MkdirAll`, `os.WriteFile`, `os.OpenFile` with O_WRONLY|O_CREATE, a write of a text from the
  -- start of the file so opened, and its `Close`.
  pub mkdir_all : Text → World → Reply (Unit {0}) × World
  pub write_file : Text → Text → World → Reply (Unit {0}) × World
  pub open_create : Text → World → Reply (Unit {0}) × World
  pub write : Text → Text → World → Reply (Unit {0}) × World
  pub close : Text → World → Reply (Unit {0}) × World
  -- `os.Rename`, `os.Remove`, `os.RemoveAll`
  pub rename : Text → Text → World → Reply (Unit {0}) × World
  pub remove : Text → World → Reply (Unit {0}) × World
  pub remove_all : Text → World → Reply (Unit {0}) × World
  -- `os.Open` with all that the file holds, `os.Stat`, `os.ReadDir`
  pub open_read : Text → World → Reply Text × World
  pub stat : Text → World → Reply (Unit {0}) × World
  pub read_dir : Text → World → Reply (List DirEntry) × World
  -- `os.Executable`; `user.Current`, which caches its result; `time.Now().UTC().Unix()`
  pub executable : Reply Text
  pub current_user : Reply User
  pub now : World → ℤ × World
  -- `exec.LookPath`; `Start` and `Wait` of a command
  pub look_path : Text → World → Reply Text
  pub exec : Command → World → Exit × World

abbrev pub outcome : {A : Type 0} → Reply A → Outcome A
outcome (done a) = ok a
outcome (failed e) = err e

abbrev pub call : {W A : Type 0} → (W → Reply A × W) → M W A
call f w = (outcome (f w).0, (f w).1)

-- A call of `c` that leaves every file but that at `p` alone.
abbrev pub Only : (m : Machine) {A : Type 0} → Text → (m.World → Reply A × m.World) → Type 0
Only m p c = (w : m.World) (q : Text) → (p == q) ≡ false → m.file (c w).1 q ≡ m.file w q

-- A call that leaves every file alone.
abbrev pub Reads : (m : Machine) {A : Type 0} → (m.World → Reply A × m.World) → Type 0
Reads m c = (w : m.World) (q : Text) → m.file (c w).1 q ≡ m.file w q

pub record IsLawful (m : Machine) : Type 0 where
  pub mkdir_all_reads : (p : Text) → Reads m (m.mkdir_all p)
  pub close_reads : (p : Text) → Reads m (m.close p)
  pub open_read_reads : (p : Text) → Reads m (m.open_read p)
  pub stat_reads : (p : Text) → Reads m (m.stat p)
  pub write_file_only : (p c : Text) → Only m p (m.write_file p c)
  pub open_create_only : (p : Text) → Only m p (m.open_create p)
  pub write_only : (p c : Text) → Only m p (m.write p c)
  pub remove_only : (p : Text) → Only m p (m.remove p)
  pub rename_only :
      (p q : Text) (w : m.World) (r : Text)
      → (p == r) ≡ false
      → (q == r) ≡ false
      → m.file (m.rename p q w).1 r ≡ m.file w r
  pub write_file_done :
      (p c : Text) (w : m.World)
      → (m.write_file p c w).0 ≡ done tt
      → m.file (m.write_file p c w).1 p ≡ some c
  pub open_create_done :
      (p : Text) (w : m.World)
      → (m.open_create p w).0 ≡ done tt
      → m.file (m.open_create p w).1 p ≡ some (or_empty (m.file w p))
  pub write_done :
      (p c : Text) (w : m.World)
      → (m.write p c w).0 ≡ done tt
      → m.file (m.write p c w).1 p ≡ some (overlay c (or_empty (m.file w p)))
  pub rename_done :
      (p q : Text) (w : m.World)
      → (m.rename p q w).0 ≡ done tt
      → m.file (m.rename p q w).1 q ≡ m.file w p
  pub rename_gone :
      (p q : Text) (w : m.World)
      → (p == q) ≡ false
      → (m.rename p q w).0 ≡ done tt
      → m.file (m.rename p q w).1 p ≡ none
  -- A rename is atomic, also where it reports an error (POSIX: after EIO it may have happened): the
  -- new path holds what it held, or the file that was renamed.
  pub rename_failed :
      (p q : Text) (w : m.World) (e : Error)
      → (m.rename p q w).0 ≡ failed e
      → (m.file (m.rename p q w).1 q ≡ m.file w q) ⊎ (m.file (m.rename p q w).1 q ≡ m.file w p)
  pub remove_done :
      (p : Text) (w : m.World) → (m.remove p w).0 ≡ done tt → m.file (m.remove p w).1 p ≡ none
  pub open_read_done :
      (p : Text) (w : m.World) (c : Text) → (m.open_read p w).0 ≡ done c → m.file w p ≡ some c
  pub open_read_missing :
      (p : Text) (w : m.World) → (m.open_read p w).0 ≡ failed (errno not_exist) → m.file w p ≡ none

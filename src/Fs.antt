-- ===== src/Fs.antt =====
-- What runtimes/ts uses of node:path and node:fs/promises. A path is absolute and normalised: the
-- list of its segments. The text of an error is shortened to the kind of the system error and the path;
-- no such text holds "not found".
pub mod Laws
pub mod Folders
use litefunctions.Prelude.{
  ℕ, Bool, true, false, ◌&&◌, ◌||◌, List, [], ◌∷◌, ◌++◌, Option, none, some, if◌then◌else◌,
}
use litefunctions.Prelude.Exec.{Result, ok, err, Exec}
use litefunctions.Text.{Text, codes, text_eq, split, join}
use litefunctions.Text.Utf8.{Bytes}

abbrev pub FilePath : Type 0
FilePath = List Text

pub data Node : Type 0 where
  file : Bytes → Node
  folder : Node

abbrev pub Fs : Type 0
Fs = List (FilePath × Node)

unfoldable pub path_eq : FilePath → FilePath → Bool
path_eq [] [] = true
path_eq [] (_ ∷ _) = false
path_eq (_ ∷ _) [] = false
path_eq (a ∷ p) (b ∷ q) = text_eq a b && path_eq p q

-- all segments but the last
unfoldable pub parent : FilePath → FilePath
parent [] = []
parent (a ∷ []) = []
parent (a ∷ b ∷ p) = a ∷ parent (b ∷ p)

unfoldable pub resolve : FilePath → Text → FilePath
unfolding parent
resolve p s =
    if text_eq s [] || text_eq s (codes ".")
    then p
    else if text_eq s (codes "..")
    then parent p
    else p ++ s ∷ []

unfoldable pub resolve_all : FilePath → List Text → FilePath
unfolding resolve
resolve_all p [] = p
resolve_all p (s ∷ ss) = resolve_all (resolve p s) ss

-- `path.join(p, s)`
unfoldable pub path_join : FilePath → Text → FilePath
unfolding resolve_all split
path_join p s = resolve_all p (split b'/' s)

unfoldable pub path_text : FilePath → Text
unfolding join
path_text p = codes "/" ++ join (codes "/") p

unfoldable pub find_node : FilePath → Fs → Option Node
find_node p [] = none
find_node p ((q, n) ∷ fs) = if path_eq q p then some n else find_node p fs

-- The root directory is always there.
unfoldable pub stat : FilePath → Fs → Option Node
unfolding find_node
stat [] fs = some folder
stat (a ∷ p) fs = find_node (a ∷ p) fs

unfoldable pub put_node : FilePath → Node → Fs → Fs
put_node p n [] = (p, n) ∷ []
put_node p n ((q, m) ∷ fs) = if path_eq q p then (q, n) ∷ fs else (q, m) ∷ put_node p n fs

unfoldable pub remove_node : FilePath → Fs → Fs
remove_node p [] = []
remove_node p ((q, m) ∷ fs) =
    let rest = remove_node p fs in if path_eq q p then rest else (q, m) ∷ rest

abbrev system_error : Text → FilePath → Text
system_error kind p = codes "Error: " ++ (kind ++ (codes ", '" ++ (path_text p ++ codes "'")))

-- `fileExists`: `stat` fails exactly where nothing is.
unfoldable pub file_exists : FilePath → Fs → Bool
unfolding stat
file_exists p fs = elim (stat p fs) [ some _ ↦ true | none ↦ false ]

-- `readFile(p)`
unfoldable pub read_file : FilePath → Fs → Result Bytes
unfolding stat path_text
read_file p fs = elim (stat p fs) [
  | some (file b) ↦ ok b
  | some folder ↦ err (system_error (codes "EISDIR") p)
  | none ↦ err (system_error (codes "ENOENT") p)
]

abbrev when_folder : FilePath → Option Node → Exec Fs (Unit {0}) → Exec Fs (Unit {0})
when_folder p (some folder) m fs = m fs
when_folder p (some (file _)) m fs = (err (system_error (codes "ENOTDIR") p), fs)
when_folder p none m fs = (err (system_error (codes "ENOENT") p), fs)

abbrev write_over : FilePath → Bytes → Option Node → Exec Fs (Unit {0})
write_over p b (some folder) fs = (err (system_error (codes "EISDIR") p), fs)
write_over p b (some (file _)) fs = (ok tt, put_node p (file b) fs)
write_over p b none fs = (ok tt, put_node p (file b) fs)

-- `writeFile(p, b)`
unfoldable pub write_file : FilePath → Bytes → Exec Fs (Unit {0})
unfolding stat put_node parent path_text
write_file p b fs = when_folder p (stat (parent p) fs) (write_over p b (stat p fs)) fs

abbrev remove_over : FilePath → Option Node → Exec Fs (Unit {0})
remove_over p (some folder) fs = (err (system_error (codes "EISDIR") p), fs)
remove_over p (some (file _)) fs = (ok tt, remove_node p fs)
remove_over p none fs = (ok tt, fs)

-- `rm(p, { force: true })`: what is not there is no error, and a folder is.
unfoldable pub rm_force : FilePath → Exec Fs (Unit {0})
unfolding stat remove_node path_text
rm_force p fs = remove_over p (stat p fs) fs

-- The name of `q` in the folder `p`, if it stands directly in it.
unfoldable pub child_name : FilePath → FilePath → Option Text
child_name [] [] = none
child_name [] (a ∷ []) = some a
child_name [] (a ∷ b ∷ q) = none
child_name (a ∷ p) [] = none
child_name (a ∷ p) (b ∷ q) = if text_eq a b then child_name p q else none

unfoldable pub child_names : FilePath → Fs → List Text
unfolding child_name
child_names p [] = []
child_names p ((q, n) ∷ fs) =
    let rest = child_names p fs in elim (child_name p q) [ some a ↦ a ∷ rest | none ↦ rest ]

-- `readdir(p)`
unfoldable pub readdir : FilePath → Fs → Result (List Text)
unfolding stat child_names path_text
readdir p fs = elim (stat p fs) [
  | some folder ↦ ok (child_names p fs)
  | some (file _) ↦ err (system_error (codes "ENOTDIR") p)
  | none ↦ err (system_error (codes "ENOENT") p)
]

-- one folder of `mkdir(p, { recursive: true })`
abbrev make_over : FilePath → Option Node → Exec Fs (Unit {0})
make_over p (some folder) fs = (ok tt, fs)
make_over p (some (file _)) fs = (err (system_error (codes "EEXIST") p), fs)
make_over p none fs = (ok tt, put_node p folder fs)

-- The folders on the way to `p ++ q`, outermost first.
unfoldable pub mkdir_from : FilePath → FilePath → Exec Fs (Unit {0})
unfolding stat put_node path_text
mkdir_from p [] fs = make_over p (stat p fs) fs
mkdir_from p (a ∷ q) fs =
    let (r, fs') = make_over p (stat p fs) fs in
    let rest = mkdir_from (p ++ a ∷ []) q fs' in elim r [ ok _ ↦ rest | err e ↦ (err e, fs') ]

-- `mkdir(p, { recursive: true })`
unfoldable pub mkdir_recursive : FilePath → Exec Fs (Unit {0})
unfolding mkdir_from
mkdir_recursive p fs = mkdir_from [] p fs

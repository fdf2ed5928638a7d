-- ===== src/Main.antt =====
-- main.cpp: the root of the static files and the port. realpath and std::stoi are parameters.
pub mod Root
pub mod Program
use reactor_web_server.Common.{
  ℕ, ◌-◌, ◌==◌, Bool, true, false, ◌&&◌, ◌||◌, Option, none, some, List, [], ◌∷◌, leb, ltb, length,
  take, drop, ℤ, pos, negsuc, if◌then◌else◌,
}
use reactor_web_server.Common.Text.{Bytes, codes, equal}

-- find_last_of('/') and substr: the text before the last slash.
unfoldable pub before_last_slash : Bytes → Option Bytes
before_last_slash [] = none
before_last_slash (c ∷ cs) =
    let later = before_last_slash cs in
    elim later [ some d ↦ some (c ∷ d) | none ↦ if c == b'/' then some [] else none ]

-- An exe_dir that ends in /build stands for its parent.
unfoldable pub root_of_dir : Bytes → Bytes
root_of_dir dir =
    if leb 6 (length dir) && equal (drop (length dir - 6) dir) (codes "/build")
    then take (length dir - 6) dir
    else dir

-- `none` from realpath is a null pointer.
unfoldable pub resolve_root_from_exe : (Bytes → Option Bytes) → Bytes → Bytes
unfolding before_last_slash root_of_dir
resolve_root_from_exe realpath argv0 = elim (realpath argv0) [
  | none ↦ codes "."
  | some exe_path ↦ elim (before_last_slash exe_path) [
    | none ↦ codes "."
    | some exe_dir ↦ root_of_dir exe_dir
  ]
]

unfoldable pub valid_port : ℤ → Bool
valid_port (negsuc _) = false
valid_port (pos n) = ltb 0 n && leb n 65535

-- The port that the server listens on; `none` is the exit with 1. std::stoi throws as `none`.
unfoldable pub port_of : (Bytes → Option ℤ) → List Bytes → Option ℤ
unfolding valid_port
port_of stoi [] = some (pos 9006)
port_of stoi (arg ∷ _) = elim (stoi arg) [
  | none ↦ none
  | some port ↦ if valid_port port then some port else none
]

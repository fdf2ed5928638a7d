-- ===== src/Main/Root.antt =====
-- main.cpp: the root directory by the place of the program.
use reactor_web_server.Common.{
  ◌-◌, ◌≡◌, refl, false, ◌==◌, Option, none, some, [], ◌∷◌, ◌++◌, All, length, length-append,
  take-append, drop-append, arith,
}
use reactor_web_server.Common.Text.{Bytes, codes, equal}
use reactor_web_server.Main.{before_last_slash, root_of_dir, resolve_root_from_exe}

-- No slash in a name.
abbrev pub IsName : Bytes → Type 0
IsName = All (λ c. (c == b'/') ≡ false)

no_slash : (name : Bytes) → IsName name → before_last_slash name ≡ none
unfolding before_last_slash
no_slash [] n = refl
no_slash (c ∷ cs) n = rw (no_slash cs n.1, n.0) refl

before_slash : (dir name : Bytes) → IsName name → before_last_slash (dir ++ b'/' ∷ name) ≡ some dir
unfolding before_last_slash
before_slash [] name n = rw (no_slash name n) refl
before_slash (c ∷ cs) name n = rw (before_slash cs name n) refl

build_suffix : (dir : Bytes) → length (dir ++ codes "/build") - 6 ≡ length dir
build_suffix dir = omega (arith, length-append dir (codes "/build"))

root_of_build : (dir : Bytes) → root_of_dir (dir ++ codes "/build") ≡ dir
unfolding root_of_dir equal
root_of_build dir =
    rw (build_suffix dir, drop-append dir (codes "/build"), take-append dir (codes "/build"))
      (ground (arith, length-append dir (codes "/build")))

module _ (realpath : Bytes → Option Bytes) (argv0 dir name : Bytes) where
  -- A program in a directory `build` serves the directory above it.
  resolve_root_from_exe-build :
      realpath argv0 ≡ some ((dir ++ codes "/build") ++ b'/' ∷ name)
      → IsName name
      → resolve_root_from_exe realpath argv0 ≡ dir
  unfolding resolve_root_from_exe
  resolve_root_from_exe-build e n =
      rw (e, before_slash (dir ++ codes "/build") name n, resolve_root_from_exe) (root_of_build dir)

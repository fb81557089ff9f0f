-- ===== src/Pancake/Boots.antt =====
-- `main` of pancake/temp/basis_ffi.c beside the one of basis/basis_ffi.c.
use cakeml.Prelude.{◌+◌, ◌≡◌, ◌≢◌, Bool-cases, Option-cases, inl, inr, false, ◌||◌, none, ltb}
use cakeml.Machine.Word.{u64}
use cakeml.CommandLine.{Args}
use cakeml.Main
use cakeml.Main.{Process, System, size_from, sz}
use cakeml.Pancake.{main, boot}

-- Unless `malloc` fails, `main` of the copy for Pancake does the same as `main` of
-- basis/basis_ffi.c in a build without EVAL: the same run of the program, messages, exit codes
-- and memory.
pub main_same :
    (sys : System) (args : Args) (p : Process)
    → sys.malloc (u64 (size_from sys.heap_env + size_from sys.stack_env)) ≢ none
    → main sys args p ≡ Main.main false sys args p
unfolding main boot Main.main Main.boot
main_same sys args p given =
    let h = size_from sys.heap_env in
    let s = size_from sys.stack_env in
    elim (Bool-cases (ltb h sz || ltb s sz)) [
      | inl small ↦ rw small
      | inr fine ↦ elim (Bool-cases (ltb (u64 (h + s)) 8192)) [
        | inl small ↦ rw (fine, small)
        | inr big ↦ elim (Option-cases (sys.malloc (u64 (h + s)))) [
          | inl failed ↦ absurd (given failed)
          | inr (base, got) ↦ rw (fine, big, got)
        ]
      ]
    ]

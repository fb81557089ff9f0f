-- ===== src/Tests/OnStart.antt =====
-- Starts of the program with concrete environments, and with a program that prints one line.
use cakeml.Prelude.{
  ◌↔◌, ◌⊎◌, true, ℕ, ◌+◌, ◌-◌, ◌*◌, ◌^◌, ◌≡◌, ◌<◌, inr, refl, arith, true, false, Option, none,
  some, List, [], ◌∷◌,
}
use cakeml.Machine.Strtoul.{strtoul}
use cakeml.Machine.Run.{exited, and_then, pure}
use cakeml.Machine.Output.{stderr, printf}
use cakeml.CommandLine.{args_of}
use cakeml.Main
use cakeml.Main.{Process, System, sz, size_from, sizes, say, is_interactive}
use cakeml.Main.Starts.{
  with_args, printing, IsContiguous, main_starts, main_overflows, main_refuses,
}
use cakeml.Main.Handler.{any, AnyAsks, main_installs}
use cakeml.Pancake
use cakeml.Pancake.Boots.{main_same}

abbrev idle : Process
idle = record {
  args = record { argc = 0; argv = [] };
  signals = record { caught_sigint = 0; handler = false };
  out = [];
  cml_heap = 0;
  cml_stack = 0;
  cml_stackend = 0;
}

abbrev with_env : Option (List ℕ) → Option (List ℕ) → System
with_env heap stack = record {
  heap_env = heap;
  stack_env = stack;
  malloc = λ n. some 4096;
  mprotect = 0;
  cml_main = say "done\n" [];
}

abbrev command : List (List ℕ)
command = (b'x' ∷ []) ∷ (b'-' ∷ b'-' ∷ b'r' ∷ b'e' ∷ b'p' ∷ b'l' ∷ []) ∷ []

abbrev two : List ℕ
two = b'2' ∷ []

-- 2 ^ 44 - 1, and 2 ^ 44.
abbrev huge : List ℕ
huge =
    b'1' ∷ b'7' ∷ b'5' ∷ b'9' ∷ b'2' ∷ b'1' ∷ b'8' ∷ b'6' ∷ b'0' ∷ b'4' ∷ b'4' ∷ b'4' ∷ b'1' ∷ b'5'
    ∷ []

abbrev wrapping : List ℕ
wrapping =
    b'1' ∷ b'7' ∷ b'5' ∷ b'9' ∷ b'2' ∷ b'1' ∷ b'8' ∷ b'6' ∷ b'0' ∷ b'4' ∷ b'4' ∷ b'4' ∷ b'1' ∷ b'6'
    ∷ []

two_lem : strtoul two ≡ 2
unfolding strtoul
two_lem = refl

huge_lem : strtoul huge ≡ 2 ^ 44 - 1
unfolding strtoul
huge_lem = refl

wrapping_lem : strtoul wrapping ≡ 2 ^ 44
unfolding strtoul
wrapping_lem = refl

two_bytes : size_from (some two) ≡ 2 * sz
unfolding size_from strtoul
two_bytes = refl

default_bytes : size_from none ≡ 1024 * sz
unfolding size_from
default_bytes = refl

abbrev usual : System
usual = with_env (some two) none

main_starts_example :
    (q : Process) × (Main.main false usual (args_of command) idle
      ≡ and_then (usual.cml_main q) (λ _. pure 0))
    × IsContiguous 4096 (strtoul two * 2 ^ 20) (1024 * 2 ^ 20) q
    × (q.args ≡ args_of command)
    × (q.out ≡ [])
main_starts_example =
    main_starts usual (args_of command) 4096 idle (omega (arith, two_lem)) (omega arith)
      (omega (arith, two_lem)) refl (omega (arith, two_lem))

abbrev greedy : System
greedy = with_env (some huge) (some two)

main_overflows_example :
    (q : Process) × (Main.main false greedy (args_of command) idle
      ≡ and_then (greedy.cml_main q) (λ _. pure 0))
    × (q.cml_heap ≡ 4096)
    × (q.cml_stack ≡ 4096 + strtoul huge * 2 ^ 20)
    × ((strtoul huge + strtoul two - 2 ^ 44) * 2 ^ 20 < strtoul huge * 2 ^ 20)
    × ((strtoul huge + strtoul two - 2 ^ 44) * 2 ^ 20 < strtoul two * 2 ^ 20)
main_overflows_example =
    main_overflows greedy (args_of command) 4096 idle (omega (arith, huge_lem))
      (omega (arith, two_lem)) (omega (arith, two_lem, huge_lem)) refl (omega (arith, huge_lem))

abbrev wrapped : System
wrapped = with_env none (some wrapping)

main_refuses_example :
    Main.main true wrapped (args_of command) idle
    ≡ exited 3 (
        printing
          (printf stderr "Too small requested heap (%lu) or stack (%lu) size in bytes.\n"
            (sizes (size_from none) (size_from (some wrapping))))
          (with_args (args_of command) idle))
main_refuses_example =
    main_refuses true wrapped (args_of command) idle (inr (omega (arith, wrapping_lem)))

main_installs_example :
    (q : Process) × (Main.main true usual (args_of command) idle
      ≡ and_then (usual.cml_main q) (λ _. pure 0))
    × ((q.signals.handler ≡ true) ↔ (AnyAsks command ⊎ (false ≡ true)))
    × (q.signals.caught_sigint ≡ 0)
    × (q.out ≡ [])
main_installs_example =
    main_installs usual command 4096 idle
      (
        ((omega arith, omega arith), tt),
        (
          let dash : (0 < b'-') × (b'-' < 256) = (omega arith, omega arith) in
              (
                dash,
                (
                  dash,
                  (
                    (omega arith, omega arith),
                    (
                      (omega arith, omega arith),
                      ((omega arith, omega arith), ((omega arith, omega arith), tt)),
                    ),
                  ),
                ),
              ),
          tt,
        ),
      )
      refl (omega (arith, two_bytes)) (omega (arith, default_bytes))
      (omega (arith, two_bytes, default_bytes)) refl

repl_is_interactive : any is_interactive command ≡ true
unfolding is_interactive
repl_is_interactive = refl

main_same_example :
    Pancake.main usual (args_of command) idle ≡ Main.main false usual (args_of command) idle
main_same_example = main_same usual (args_of command) idle (λ e. cc)

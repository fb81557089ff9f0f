-- ===== src/Main.antt =====
-- `main` of basis/basis_ffi.c: the sizes of heap and stack from the environment, their memory, and
-- the call of the compiled program. An `unsigned long` is a number below 2 ^ 64. `getenv`, `malloc`,
-- `mprotect` and the compiled program `cml_main` are parameters.
pub mod Sizes
pub mod Starts
pub mod Handler
use cakeml.Prelude.{
  ℕ, zero, suc, ◌+◌, ◌*◌, ◌^◌, Bool, true, false, not, ◌&&◌, ◌||◌, Option, none, some, List, [],
  ◌∷◌, ◌++◌, String, ◌==◌, ltb, if◌then◌else◌,
}
use cakeml.Prelude.Int.{ℤ, pos}
use cakeml.Machine.Word.{u64}
use cakeml.Machine.Run.{Run, M, pure, lift, modify, exit, ◌>>=◌, ◌>>◌}
use cakeml.Machine.Read
use cakeml.Machine.Buffer.{c_string}
use cakeml.Machine.Output.{Output, stderr, printf, perror, then_write}
use cakeml.Machine.Strtoul.{strtoul}
use cakeml.CommandLine.{Args}
use cakeml.Files.Fs.{str_eq}
use cakeml.Sigint.{Signals}

pub record Process : Type 0 where
  pub args : Args
  pub signals : Signals
  pub out : List Output
  pub cml_heap : ℕ
  pub cml_stack : ℕ
  pub cml_stackend : ℕ

-- `heap_env` and `stack_env` are CML_HEAP_SIZE and CML_STACK_SIZE, `none` if unset; `mprotect` is the
-- `int` that the call answers.
pub record System : Type 0 where
  pub heap_env : Option (List ℕ)
  pub stack_env : Option (List ℕ)
  pub malloc : ℕ → Option ℕ
  pub mprotect : ℕ
  pub cml_main : M Process (Unit {0})

abbrev pub sz : ℕ
sz = 1024 * 1024

-- `unsigned long cml_heap_sz = 1024 * sz; if (heap_env != NULL) …`, and so for the stack.
unfoldable pub size_from : Option (List ℕ) → ℕ
size_from none = 1024 * sz
size_from (some env) = u64 (strtoul env * sz)

abbrev pub say : String → List ℤ → M Process (Unit {0})
say text args = modify (λ p. record p { out = then_write p.out (printf stderr text args) })

abbrev pub complain : String → M Process (Unit {0})
complain text = modify (λ p. record p { out = then_write p.out (perror text) })

abbrev pub layout : (base heap_sz stack_sz : ℕ) → Process → Process
layout base heap_sz stack_sz p = record p {
  cml_heap = base;
  cml_stack = u64 (base + heap_sz);
  cml_stackend = u64 (u64 (base + heap_sz) + stack_sz);
}

abbrev pub repl_option : List ℕ
repl_option = b'-' ∷ b'-' ∷ b'r' ∷ b'e' ∷ b'p' ∷ b'l' ∷ []

abbrev pub candle_option : List ℕ
candle_option = b'-' ∷ b'-' ∷ b'c' ∷ b'a' ∷ b'n' ∷ b'd' ∷ b'l' ∷ b'e' ∷ []

-- The test of the loop over the arguments: the two calls of `strcmp`.
unfoldable pub is_interactive : List ℕ → Bool
unfolding str_eq
is_interactive s = str_eq s repl_option || str_eq s candle_option

-- The loop, with `local_argc - i` rounds left: whether it installs the handler.
unfoldable pub wants_handler : (rounds : ℕ) → List (List ℕ) → Option Bool
wants_handler zero argv = some false
wants_handler (suc rounds) [] = none
wants_handler (suc rounds) (arg ∷ argv) =
    let rest = wants_handler rounds argv in
    elim (c_string arg) [ none ↦ none | some s ↦ if is_interactive s then some true else rest ]

abbrev pub install : Bool → Process → Process
install true p = record p { signals = record (p.signals) { handler = true } }
install false p = p

-- What the build with EVAL does before it starts the program.
unfoldable pub prepare_eval : System → M Process (Unit {0})
unfolding wants_handler is_interactive
prepare_eval sys p =
    (if not (sys.mprotect == 0)
        then (do
          say "failed to set permissions for CakeML code buffer.\n" []
          complain "mprotect"
          exit 3)
        else (do found ← lift (wants_handler p.args.argc p.args.argv); modify (install found)))
      p

abbrev pub sizes : ℕ → ℕ → List ℤ
sizes heap_sz stack_sz = pos heap_sz ∷ pos stack_sz ∷ []

-- The rest of `main`, once the sizes are known, with what it says when `malloc` fails and what it
-- does before it starts the program.
unfoldable pub boot :
    (no_memory prepare : M Process (Unit {0})) → System → (heap_sz stack_sz : ℕ) → M Process ℕ
boot no_memory prepare sys heap_sz stack_sz =
    if ltb heap_sz sz || ltb stack_sz sz
    then (do
      say "Too small requested heap (%lu) or stack (%lu) size in bytes.\n" (sizes heap_sz stack_sz)
      exit 3)
    else (if ltb (u64 (heap_sz + stack_sz)) 8192
        then (do
          say "Too small requested heap (%lu) + stack (%lu) size in bytes.\n"
              (sizes heap_sz stack_sz)
          exit 3)
        else elim (sys.malloc (u64 (heap_sz + stack_sz))) [
          | none ↦ (do no_memory; exit 3)
          | some base ↦ (do modify (layout base heap_sz stack_sz); prepare; sys.cml_main; pure 0)
        ])

abbrev pub no_memory : M Process (Unit {0})
no_memory = do
  say "failed to allocate sufficient CakeML heap and stack space.\n" []
  complain "malloc"

abbrev pub set_args : Args → M Process (Unit {0})
set_args args = modify (λ p. record p { args = args })

unfoldable pub main : (eval : Bool) → System → Args → M Process ℕ
main eval sys args = do
  set_args args
  boot no_memory (if eval then prepare_eval sys else pure tt) sys (size_from sys.heap_env)
      (size_from sys.stack_env)

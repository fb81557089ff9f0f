-- ===== src/Yes.antt =====
-- The run-time of the program `yes`, examples/cost/yes_ffi.c: `ffiput_char`, `cml_exit` and `main`.
pub mod Behaviour
use cakeml.Prelude.{
  ℕ, zero, suc, ◌+◌, ◌*◌, ◌^◌, Bool, true, false, Option, none, some, List, [], ◌∷◌, ◌++◌, String,
  ◌==◌, ltb, if◌then◌else◌, map,
}
use cakeml.Prelude.Int.{ℤ, pos}
use cakeml.Machine.Word.{u64}
use cakeml.Machine.Run.{Run, M, pure, lift, modify, exit, ◌>>=◌, ◌>>◌}
use cakeml.Machine.Buffer.{c_string}
use cakeml.Machine.Output.{Output, stdout, stderr, putc, printf, then_write}
use cakeml.Main.{Process, System, say, sizes, layout, sz}

-- What `printf` writes for a format of plain characters, "%%" and one "%s" with the argument that it
-- stands for; `none` for any other conversion, for which there is no matching argument.
unfoldable pub formatted : List ℕ → Option (List ℕ) → Option (List ℕ)
formatted [] arg = some []
formatted (x ∷ []) arg = if x == b'%' then none else some (x ∷ [])
formatted (x ∷ y ∷ format) arg =
    let plain = formatted (y ∷ format) arg in
    let rest = formatted format arg in
    let last = formatted format none in
    if x == b'%'
    then (if y == b'%'
        then elim rest [ none ↦ none | some out ↦ some (b'%' ∷ out) ]
        else (if y == b's'
            then elim arg [
              | none ↦ none
              | some text ↦ elim last [ none ↦ none | some out ↦ some (text ++ out) ]
            ]
            else none))
    else elim plain [ none ↦ none | some out ↦ some (x ∷ out) ]

abbrev pub put_text : List ℕ → List Output → List Output
put_text text out = out ++ map (putc stdout) text

-- `printf(c, "%s")`: the configuration is the format, and "%s" is its argument.
unfoldable pub ffiput_char : (c : List ℕ) → M (List Output) (Unit {0})
unfolding formatted
ffiput_char c = do
  format ← lift (c_string c)
  text ← lift (formatted format (some (b'%' ∷ b's' ∷ [])))
  modify (put_text text)

unfoldable pub cml_exit : ℕ → M (List Output) (Unit {0})
cml_exit arg = do
  modify (λ out.
      if arg == 1
      then then_write out (printf stderr "CakeML heap space exhausted.\n" [])
      else (if arg == 2
          then then_write out (printf stderr "CakeML stack space exhausted.\n" [])
          else out))
  exit arg

abbrev pub heap_sz : ℕ
heap_sz = 1024 * sz

abbrev pub stack_sz : ℕ
stack_sz = 1024 * sz

unfoldable pub main : System → M Process (Unit {0})
main sys =
    if ltb (u64 (heap_sz + stack_sz)) heap_sz
    then (do
      say "Overflow in requested heap (%lu) + stack (%lu) size in bytes.\n" (sizes heap_sz stack_sz)
      exit 3)
    else (if ltb (u64 (heap_sz + stack_sz)) 8192
        then (do
          say "Too small requested heap (%lu) + stack (%lu) size in bytes.\n"
              (sizes heap_sz stack_sz)
          exit 3)
        else elim (sys.malloc (u64 (heap_sz + stack_sz))) [
          | none ↦ (do
            say "malloc() failed to allocate sufficient CakeML heap and stack space.\n" []
            exit 3)
          | some base ↦ (do modify (layout base heap_sz stack_sz); sys.cml_main)
        ])

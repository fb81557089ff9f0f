-- ===== src/Main/Starts.antt =====
-- When `main` starts the program, with what memory, and when it gives up.
use cakeml.Prelude.{
  ℕ, ◌+◌, ◌-◌, ◌*◌, ◌%◌, ◌^◌, ◌≤◌, ◌<◌, ◌≡◌, ◌↔◌, ◌⊎◌, inl, inr, refl, ap, sym, ◌∙◌, arith, Bool,
  true, false, ◌||◌, some, ltb, lt→ltb, le→ltb,
}
use cakeml.Machine.Word.{u64}
use cakeml.Machine.Run.{M, exited, and_then, pure}
use cakeml.Machine.Output.{Output, stderr, printf, then_write}
use cakeml.CommandLine.{Args}
use cakeml.Main.{Process, System, sz, size_from, sizes, layout, no_memory, boot, main}
use cakeml.Main.Sizes.{megabytes, size_from_wraps, size_from_exact}

abbrev pub with_args : Args → Process → Process
with_args args p = record p { args = args }

abbrev pub printing : Output → Process → Process
printing o p = record p { out = then_write p.out o }

too_small : (h s : ℕ) → (h < sz) ⊎ (s < sz) → (ltb h sz || ltb s sz) ≡ true
too_small h s (inl a) = rw (lt→ltb h sz a)
too_small h s (inr b) = ground arith

-- Beyond the two checks, with memory.
pub boot_starts :
    (no_memory prepare : M Process (Unit {0})) (sys : System) (h s base : ℕ) (p : Process)
    → sz ≤ h
    → sz ≤ s
    → 8192 ≤ u64 (h + s)
    → sys.malloc (u64 (h + s)) ≡ some base
    → boot no_memory prepare sys h s p
      ≡ and_then (prepare (layout base h s p)) (λ _ q. and_then (sys.cml_main q) (λ _. pure 0))
unfolding boot
boot_starts no_memory prepare sys h s base p hh hs big got =
    rw (le→ltb h sz hh, le→ltb s sz hs, le→ltb (u64 (h + s)) 8192 big, got)

-- What the program finds: the heap at the start of the block that `malloc` gave, the stack right
-- behind it, and the end of the stack at the end of the block.
pub record IsContiguous (base heap_sz stack_sz : ℕ) (p : Process) : Type 0 where
  pub heap : p.cml_heap ≡ base
  pub stack : p.cml_stack ≡ base + heap_sz
  pub stackend : p.cml_stackend ≡ base + (heap_sz + stack_sz)

pub layout-IsContiguous :
    (base h s : ℕ) (p : Process)
    → base + (h + s) < 2 ^ 64
    → IsContiguous base h s (layout base h s p)
layout-IsContiguous base h s p fits = record {
  heap = refl;
  stack = omega arith;
  stackend = omega arith;
}

-- In the build without EVAL, where heap and stack of at least one megabyte each together stay below
-- 2 ^ 64 bytes and `malloc` gives a block of that size that ends below 2 ^ 64, the program is started
-- with them laid out next to each other in that block, its arguments set and nothing printed; when it
-- returns, `main` returns 0.
pub main_starts :
    (sys : System) (args : Args) (base : ℕ) (p : Process)
    → let h = megabytes sys.heap_env in
      let s = megabytes sys.stack_env in
      1 ≤ h
      → 1 ≤ s
      → h + s < 2 ^ 44
      → sys.malloc ((h + s) * 2 ^ 20) ≡ some base
      → base + (h + s) * 2 ^ 20 < 2 ^ 64
      → (q : Process) × (main false sys args p ≡ and_then (sys.cml_main q) (λ _. pure 0))
        × IsContiguous base (h * 2 ^ 20) (s * 2 ^ 20) q
        × (q.args ≡ args)
        × (q.out ≡ p.out)
unfolding main
main_starts sys args base p hh hs sum got fits =
    let h = megabytes sys.heap_env * 2 ^ 20 in
    let s = megabytes sys.stack_env * 2 ^ 20 in
    let q0 = with_args args p in
    let total : (megabytes sys.heap_env + megabytes sys.stack_env) * 2 ^ 20 ≡ u64 (h + s) =
      omega arith in
    let given : sys.malloc (u64 (h + s)) ≡ some base = ap sys.malloc (sym total) ∙ got in
    (
      layout base h s q0,
      rw (size_from_exact sys.heap_env (omega arith), size_from_exact sys.stack_env (omega arith))
          (boot_starts no_memory (pure tt) sys h s base q0 (omega arith) (omega arith) (omega arith)
            given),
      layout-IsContiguous base h s q0 (omega arith),
      refl,
      refl,
    )

-- A request that is 0 modulo 2 ^ 44 megabytes, for the heap or for the stack, is refused: one
-- message, exit code 3, and the program is not started, in either build.
pub main_refuses :
    (eval : Bool) (sys : System) (args : Args) (p : Process)
    → (megabytes sys.heap_env % 2 ^ 44 ≡ 0) ⊎ (megabytes sys.stack_env % 2 ^ 44 ≡ 0)
    → main eval sys args p
      ≡ exited 3 (
          printing
            (printf stderr "Too small requested heap (%lu) or stack (%lu) size in bytes.\n"
              (sizes (size_from sys.heap_env) (size_from sys.stack_env)))
            (with_args args p))
unfolding main boot
main_refuses eval sys args p small =
    let refused : (ltb (size_from sys.heap_env) sz || ltb (size_from sys.stack_env) sz) ≡ true =
      too_small (size_from sys.heap_env) (size_from sys.stack_env)
        (omega (arith, size_from_wraps sys.heap_env, size_from_wraps sys.stack_env)) in
    rw refused

-- In the build without EVAL, heap and stack of less than 2 ^ 64 bytes each that together need
-- more than 2 ^ 64 bytes are not refused: `malloc` is asked for the sum modulo 2 ^ 64, which is
-- less than either. If it gives a block, and the heap's end as seen from its start is below 2 ^
-- 64, the program is started with a stack that begins a whole heap behind the start of that
-- smaller block.
pub main_overflows :
    (sys : System) (args : Args) (base : ℕ) (p : Process)
    → let h = megabytes sys.heap_env in
      let s = megabytes sys.stack_env in
      let asked = (h + s - 2 ^ 44) * 2 ^ 20 in
      h < 2 ^ 44
      → s < 2 ^ 44
      → 2 ^ 44 < h + s
      → sys.malloc asked ≡ some base
      → base + h * 2 ^ 20 < 2 ^ 64
      → (q : Process) × (main false sys args p ≡ and_then (sys.cml_main q) (λ _. pure 0))
        × (q.cml_heap ≡ base)
        × (q.cml_stack ≡ base + h * 2 ^ 20)
        × (asked < h * 2 ^ 20)
        × (asked < s * 2 ^ 20)
unfolding main
main_overflows sys args base p hh hs sum got fits =
    let h = megabytes sys.heap_env * 2 ^ 20 in
    let s = megabytes sys.stack_env * 2 ^ 20 in
    let q0 = with_args args p in
    let asked : (megabytes sys.heap_env + megabytes sys.stack_env - 2 ^ 44) * 2 ^ 20 ≡ u64 (h + s) =
      omega arith in
    let given : sys.malloc (u64 (h + s)) ≡ some base = ap sys.malloc (sym asked) ∙ got in
    (
      layout base h s q0,
      rw (size_from_exact sys.heap_env hh, size_from_exact sys.stack_env hs)
          (boot_starts no_memory (pure tt) sys h s base q0 (omega arith) (omega arith) (omega arith)
            given),
      refl,
      omega arith,
      omega arith,
      omega arith,
    )

-- The check of the sum fires for just one total, that of exactly 2 ^ 64 bytes.
pub sum_check_fires :
    (h s : ℕ)
    → 1 ≤ h
    → 1 ≤ s
    → h < 2 ^ 44
    → s < 2 ^ 44
    → (u64 (h * 2 ^ 20 + s * 2 ^ 20) < 8192) ↔ (h + s ≡ 2 ^ 44)
sum_check_fires h s hh hs bh bs = (λ small. omega arith, λ e. omega arith)

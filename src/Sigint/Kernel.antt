-- ===== src/Sigint/Kernel.antt =====
-- What `ffikernel_ffi` prints.
use cakeml.Prelude.{
  ℕ, zero, suc, ◌≤◌, ◌≡◌, sym, ap, ◌∙◌, arith, List, [], ◌∷◌, ◌++◌, map, length, take, append-nil,
  append_assoc,
}
use cakeml.Machine.Run.{ok}
use cakeml.Machine.Output.{Output, stdout, putc}
use cakeml.Sigint.{kernel_loop, ffikernel_ffi}

kernel_loop_lem :
    (n : ℕ) (c : List ℕ) (out : List Output)
    → n ≤ length c
    → kernel_loop n c out ≡ ok tt (out ++ map (putc stdout) (take n c))
unfolding kernel_loop
kernel_loop_lem zero c out h = ap (ok tt) (sym (append-nil out))
kernel_loop_lem (suc n) [] out h = absurd (omega arith)
kernel_loop_lem (suc n) (x ∷ c) out h =
    kernel_loop_lem n c (out ++ putc stdout x ∷ []) (omega arith)
    ∙ ap (ok tt) (append_assoc out (putc stdout x ∷ []) _)

-- The first `clen` bytes of a configuration that has them are written to the standard output, in
-- order, behind what was there, the bytes after a 0 included.
pub kernel_ffi_prints :
    (c : List ℕ) (clen : ℕ) (out : List Output)
    → clen ≤ length c
    → ffikernel_ffi c clen out ≡ ok tt (out ++ map (putc stdout) (take clen c))
unfolding ffikernel_ffi
kernel_ffi_prints c clen out h = kernel_loop_lem clen c out h

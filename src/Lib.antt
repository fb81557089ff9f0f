-- ===== src/Lib.antt =====
-- The C run-time of CakeML: the code in C that a compiled CakeML program is linked with. A compiled
-- program calls it through the foreign function interface, a call `ffi<name>` with a configuration
-- `c` of `clen` bytes that it only reads and an array `a` of `alen` bytes that it reads and writes,
-- and is started by `main`.
--
-- The C and the files that model it:
--   basis/basis_ffi.c, the run-time of the basis library:
--     Marshal       int_to_byte2, byte2_to_int, int_to_byte8, byte8_to_int
--     CommandLine   ffiget_arg_count, ffiget_arg_length, ffiget_arg
--     Files         ffiopen_in, ffiopen_out, ffiread, ffiwrite, fficlose
--     Sigint        do_sigint, ffipoll_sigint, ffikernel_ffi (the build with EVAL)
--     Gc            ffi, the empty call, with DEBUG_FFI and without
--     Exit          cml_exit, cml_err, ffiexit
--     Double        the eight calls ffidouble_*
--     Main          main
--   pancake/temp/basis_ffi.c                             Pancake
--   compiler/bootstrap/compilation/ag32/32/basis_ffi.c   Ag32
--   examples/cost/yes_ffi.c                              Yes
-- The HOL scripts beside the C say what the calls promise; they are translated as specifications:
--   basis/MarshallingScript.sml (Marshal), basis/clFFIScript.sml (CommandLine), basis/fsFFIScript.sml
--   (Files/Fs for the file system, Files/Fs/Calls for the calls).
--
-- Machine holds what the components stand on. A piece of C is a function from a state to a `Run`: it
-- returns (`ok`), calls `exit` (`exited`), fails an assertion (`aborted`), or does something undefined
-- (`fault`), such as an access outside an object. The state of a call, `Call W`, is the array `a`
-- and the rest `W`: the state of the operating system for the file calls, the flag and handler for
-- signals, the collector's counters and the output for `ffi` and `cml_exit`, the clock for Pancake,
-- nothing in particular for calls that only change the array. A fixed-width integer is its bit
-- pattern, a natural number, and every conversion, shift and sum has its remainder written out
-- (Machine/Word). What is written to the standard streams is a list of calls of `putc`, `printf` and
-- `perror` (Machine/Output), and `strtoul` is the function of the C library (Machine/Strtoul).
--
-- How the parts interact: `main` sets the globals of the command line, reads the sizes with `strtoul`,
-- gets memory and installs `do_sigint`, whose flag `ffipoll_sigint` reads; the file calls read the
-- descriptor and the counts with the functions of Marshal and answer with them; `cml_exit` prints the
-- counters that `ffi` keeps.
--
-- Parameters, for code outside the repository: the system calls of the file calls (the record Os, with
-- what POSIX says of them in terms of the file system of the model in Implements, which Files/Model
-- shows can hold), `getenv`, `malloc`, `mprotect` and the compiled program `cml_main` (System in
-- Main), the operations on floating-point numbers (Floats and IsFloats in Double, Scanf in Pancake),
-- the clock, and the rounding of `double` arithmetic in Gc.
--
-- Loops are recursions on the bytes or the rounds that are left, so no fuel is needed. `next_fd` of the
-- file system takes one round for each open descriptor, which is enough to find an unused number.
--
-- Not modelled: `cml_clear`, a single cache instruction; the delay of `ffiget_time_input`; the
-- functions of Marshal, which the copies for Pancake and ag32 repeat, are not written twice. The
-- compiler and its proofs, Candle, the translators and the libraries written in CakeML are Standard ML
-- and HOL, with proofs of their own.
pub mod Prelude
pub mod Machine
pub mod Marshal
pub mod CommandLine
pub mod Files
pub mod Sigint
pub mod Gc
pub mod Exit
pub mod Double
pub mod Main
pub mod Pancake
pub mod Ag32
pub mod Yes
pub mod Tests

-- ===== src/Tests/OnBounds.antt =====
-- The file calls over a system that always transfers half of what it is asked for.
use cakeml.Prelude.{ℕ, zero, suc, ◌+◌, ◌*◌, ◌/◌, ◌≡◌, refl, ap, arith, some, List, [], ◌∷◌, length}
use cakeml.Machine.Buffer.{call, c_string}
use cakeml.Files.{basis, ffiopen_in, ffiopen_out, ffiread, ffiwrite, fficlose}
use cakeml.Files.Safety.Opens.{GuardedOpen, descriptor_calls-Guarded}
use cakeml.Files.Descriptors.{IsClosable, opened_is_closed}
use cakeml.Files.Syscalls.{Os}
use cakeml.Files.Safety.{Guarded, IsBounded, ffiread-Guarded, ffiwrite-Guarded}

abbrev dots : ℕ → List ℕ
dots zero = []
dots (suc n) = b'.' ∷ dots n

length-dots : (n : ℕ) → length (dots n) ≡ n
length-dots zero = refl
length-dots (suc n) = ap suc (length-dots n)

abbrev halving : Os
halving = record {
  World = ℕ;
  open_file = λ path flags perms w. (3, w);
  read = λ fd n w. ((n / 2, dots (n / 2)), w);
  write = λ fd bytes w. (length bytes / 2, w);
  close = λ fd w. (0, w);
}

halving-IsBounded : IsBounded halving
halving-IsBounded fd n w = omega (arith, length-dots (n / 2))

abbrev three_conf : List ℕ
three_conf = 0 ∷ 0 ∷ 0 ∷ 0 ∷ 0 ∷ 0 ∷ 0 ∷ 3 ∷ []

abbrev no_world : ℕ
no_world = 0

ffiread-Guarded_example :
    Guarded three_conf
      (0 * 256 + 4 + 4)
      (0 * 256 + 4 + 4)
      (0 ∷ 4 ∷ dots 6)
      no_world
      (ffiread halving basis three_conf 8 8 (call (0 ∷ 4 ∷ dots 6) no_world))
ffiread-Guarded_example =
    ffiread-Guarded halving three_conf 0 4 (dots 6) no_world halving-IsBounded (omega arith)
      (omega arith)

ffiwrite-Guarded_example :
    Guarded three_conf
      (0 * 256 + 4 + (0 * 256 + 1) + 4)
      3
      (0 ∷ 4 ∷ 0 ∷ 1 ∷ dots 2)
      no_world
      (ffiwrite halving basis three_conf 8 6 (call (0 ∷ 4 ∷ 0 ∷ 1 ∷ dots 2) no_world))
ffiwrite-Guarded_example =
    ffiwrite-Guarded halving three_conf 0 4 0 1 (dots 2) no_world (omega arith) (omega arith)
      (omega arith) (omega arith)

abbrev f_name : List ℕ
f_name = b'f' ∷ 0 ∷ []

f_name_lem : c_string f_name ≡ some (b'f' ∷ [])
unfolding c_string
f_name_lem = refl

-- The descriptor 3, closed on an array of one byte.
opened_is_closed_example :
    IsClosable halving basis
      (dots 10)
      9
      []
      5
      (3, no_world)
      (ffiopen_in halving basis f_name 10 (call (dots 10) no_world))
    × IsClosable halving basis
        (dots 10)
        9
        []
        5
        (3, no_world)
        (ffiopen_out halving basis f_name 10 (call (dots 10) no_world))
opened_is_closed_example =
    opened_is_closed halving basis f_name (b'f' ∷ []) (dots 10) 9 [] no_world 5 f_name_lem
      (omega arith) (omega arith) (omega arith)

descriptor_calls-Guarded_example :
    GuardedOpen (dots 10) no_world (ffiopen_in halving basis f_name 10 (call (dots 10) no_world))
    × GuardedOpen (dots 10) no_world (ffiopen_out halving basis f_name 10 (call (dots 10) no_world))
    × Guarded three_conf 1 1
        (dots 10)
        no_world
        (fficlose halving basis three_conf 8 10 (call (dots 10) no_world))
descriptor_calls-Guarded_example =
    descriptor_calls-Guarded halving f_name (b'f' ∷ []) three_conf (dots 10) no_world f_name_lem
      (omega arith) (omega arith)

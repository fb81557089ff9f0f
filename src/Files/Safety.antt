-- ===== src/Files/Safety.antt =====
-- `ffiread` and `ffiwrite` of basis/basis_ffi.c over any operating system: where the assertions hold they return
-- an answer inside the array, and elsewhere they stop before the system call.
pub mod Opens
use cakeml.Prelude.{
  ℕ, ◌+◌, ◌*◌, ◌≤◌, ◌<◌, ◌≡◌, ◌≢◌, refl, ◌∙◌, arith, Bool-cases, some, List, [], ◌∷◌, length, take,
  drop, get_elem?, leb, ◌==◌, ◌⊎◌, inl, inr,
}
use cakeml.Machine.Word.{IsByte, u32, neg32}
use cakeml.Machine.Run.{Run, ok, aborted}
use cakeml.Machine.Buffer.{Call, call, overwrite}
use cakeml.Machine.Buffer.Laws.{
  store_lem, copy_to_lem, copy_from_lem, length-overwrite, get_elem?-overwrite_outside,
  get_elem?_start,
}
use cakeml.Marshal.{n2w2, byte2_to_int, byte8_to_int}
use cakeml.Marshal.Codes.{int_to_byte2_lem}
use cakeml.Marshal.Words.{join2_lem}
use cakeml.Files.{basis, byte2_at, store_count, ffiread, ffiwrite}
use cakeml.Files.Syscalls.{Os}

-- The call returns with an array of the same length, whose first byte is 0 or 1, and which is
-- unchanged from place `n` on.
pub record Answered {W : Type 0} (n : ℕ) (a : List ℕ) (r : Run (Call W) (Unit {0})) : Type 0 where
  pub out : List ℕ
  pub world : W
  pub returns : r ≡ ok tt (call out world)
  pub same_length : length out ≡ length a
  pub status : (get_elem? out 0 ≡ some 0) ⊎ (get_elem? out 0 ≡ some 1)
  pub outside : (j : ℕ) → n ≤ j → get_elem? out j ≡ get_elem? a j

module _ (os : Os) where
  open os use {World}

  store_count-Answered :
      (r : ℕ) (a : List ℕ) (w : World)
      → 3 ≤ length a
      → Answered 3 a (store_count os basis r (call a w))
  unfolding store_count n2w2
  store_count-Answered r a w room = elim (Bool-cases (neg32 (u32 r))) [
    | inl failed ↦ record {
      out = overwrite 0 (1 ∷ []) a;
      world = w;
      returns = rw failed (store_lem 0 1 a w (omega arith));
      same_length = length-overwrite 0 (1 ∷ []) a;
      status = inr (get_elem?_start 0 (1 ∷ []) a (omega arith) (omega arith));
      outside = λ j h. get_elem?-overwrite_outside 0 j (1 ∷ []) a (inr (omega arith));
    }
    | inr good ↦
        let a1 = overwrite 0 (0 ∷ []) a in
        let same = length-overwrite 0 (0 ∷ []) a in
        record {
          out = overwrite 1 (n2w2 (u32 r)) a1;
          world = w;
          returns =
              rw (good, store_lem 0 0 a w (omega arith))
                (int_to_byte2_lem (u32 r) 1 a1 w (omega arith) (omega arith));
          same_length = length-overwrite 1 (n2w2 (u32 r)) a1 ∙ same;
          status = inl (
              get_elem?-overwrite_outside 1 0 (n2w2 (u32 r)) a1 (inl (omega arith))
              ∙ get_elem?_start 0 (0 ∷ []) a (omega arith) (omega arith));
          outside = λ j h.
              get_elem?-overwrite_outside 1 j (n2w2 (u32 r)) a1 (inr (omega arith))
              ∙ get_elem?-overwrite_outside 0 j (0 ∷ []) a (inr (omega arith));
        }
  ]

-- Eight bytes are a descriptor.
pub has_fd : (c : List ℕ) → length c ≡ 8 → (fd : ℕ) × (byte8_to_int c 0 ≡ some fd)
unfolding byte8_to_int
has_fd (c0 ∷ c1 ∷ c2 ∷ c3 ∷ c4 ∷ c5 ∷ c6 ∷ c7 ∷ c) h = (_, refl)
has_fd _ h = absurd (omega arith)

-- Either the conditions of the call hold, `need` among them, and it is answered with the array
-- unchanged from place `kept` on, or they do not and it stops with nothing changed.
abbrev pub Guarded :
    {W : Type 0} → List ℕ → (need kept : ℕ) → List ℕ → W → Run (Call W) (Unit {0}) → Type 0
Guarded c need kept a w run =
    ((length c ≡ 8) × (need ≤ length a) × Answered kept a run)
    ⊎ (((length c ≢ 8) ⊎ (length a < need)) × (run ≡ aborted (call a w)))

-- What the system call of a read has to respect: no more bytes than it was asked for.
abbrev pub IsBounded : Os → Type 0
IsBounded os = (fd n : ℕ) (w : os.World) → length (os.read fd n w).0.1 ≤ n

module _ (os : Os) (c : List ℕ) where
  open os use {World}

  -- Over any operating system that never reads more bytes than it is asked for, with any configuration
  -- and any array of two bytes or more that starts with a count: if the configuration has eight bytes
  -- and the array has four more than the count, `ffiread` returns, and has changed nothing behind
  -- the bytes that it was asked for; if not, it stops at an assertion with nothing changed. No
  -- access is outside.
  pub ffiread-Guarded :
      (n1 n0 : ℕ) (tl : List ℕ) (w : World)
      → IsBounded os
      → IsByte n1
      → IsByte n0
      → let a = n1 ∷ n0 ∷ tl in
        Guarded c
          (n1 * 256 + n0 + 4)
          (n1 * 256 + n0 + 4)
          a
          w
          (ffiread os basis c (length c) (length a) (call a w))
  unfolding ffiread byte2_at byte2_to_int
  ffiread-Guarded n1 n0 tl w bounded h1 h0 =
      let a = n1 ∷ n0 ∷ tl in
      let n = n1 * 256 + n0 in
      elim (Bool-cases (length c == 8)) [
        | inr other ↦ inr (inl (ground arith), rw other)
        | inl eight ↦
            let size : length c ≡ 8 = ground arith in
            let (fd, conf) = has_fd c size in
            elim (Bool-cases (leb (n + 4) (length a))) [
              | inr small ↦ inr (inr (ground arith), rw (eight, conf, join2_lem n1 n0 h1 h0, small))
              | inl long ↦
                  let room : n + 4 ≤ length a = ground arith in
                  let answer = os.read fd n w in
                  let few = bounded fd n w in
                  let a1 = overwrite 4 answer.0.1 a in
                  let same = length-overwrite 4 answer.0.1 a in
                  let r = store_count-Answered os answer.0.0 a1 answer.1 (omega arith) in
                  inl (
                    size,
                    room,
                    record {
                      out = r.out;
                      world = r.world;
                      returns =
                          rw
                            (
                              eight,
                              conf,
                              join2_lem n1 n0 h1 h0,
                              long,
                              copy_to_lem 4 answer.0.1 a answer.1 (omega arith),
                            )
                            r.returns;
                      same_length = r.same_length ∙ same;
                      status = r.status;
                      outside = λ j h.
                          r.outside j (omega arith)
                          ∙ get_elem?-overwrite_outside 4 j answer.0.1 a (inr (omega arith));
                    },
                  )
            ]
      ]

  -- Over any operating system, with any configuration and any array of four bytes or more that starts
  -- with a count and an offset: if the configuration has eight bytes and the array has four more than
  -- count and offset, `ffiwrite` returns, and has changed only the status and the two bytes of
  -- the count, the first three; if not, it stops at an assertion with nothing changed. No
  -- access is outside.
  pub ffiwrite-Guarded :
      (n1 n0 off1 off0 : ℕ) (tl : List ℕ) (w : World)
      → IsByte n1
      → IsByte n0
      → IsByte off1
      → IsByte off0
      → let a = n1 ∷ n0 ∷ off1 ∷ off0 ∷ tl in
        Guarded c
          (n1 * 256 + n0 + (off1 * 256 + off0) + 4)
          3
          a
          w
          (ffiwrite os basis c (length c) (length a) (call a w))
  unfolding ffiwrite byte2_at byte2_to_int
  ffiwrite-Guarded n1 n0 off1 off0 tl w h1 h0 g1 g0 =
      let a = n1 ∷ n0 ∷ off1 ∷ off0 ∷ tl in
      let n = n1 * 256 + n0 in
      let off = off1 * 256 + off0 in
      elim (Bool-cases (length c == 8)) [
        | inr other ↦ inr (inl (ground arith), rw other)
        | inl eight ↦
            let size : length c ≡ 8 = ground arith in
            let (fd, conf) = has_fd c size in
            elim (Bool-cases (leb (n + off + 4) (length a))) [
              | inr small ↦ inr (
                inr (ground arith),
                rw (eight, conf, join2_lem n1 n0 h1 h0, join2_lem off1 off0 g1 g0, small),
              )
              | inl long ↦
                  let room : n + off + 4 ≤ length a = ground arith in
                  let sent = take n (drop (4 + off) a) in
                  let answer = os.write fd sent w in
                  let r = store_count-Answered os answer.0 a answer.1 (omega arith) in
                  inl (
                    size,
                    room,
                    record {
                      out = r.out;
                      world = r.world;
                      returns =
                          rw
                            (
                              eight,
                              conf,
                              join2_lem n1 n0 h1 h0,
                              join2_lem off1 off0 g1 g0,
                              long,
                              copy_from_lem (4 + off) n a w (omega arith),
                            )
                            r.returns;
                      same_length = r.same_length;
                      status = r.status;
                      outside = λ j h. r.outside j (omega arith);
                    },
                  )
            ]
      ]

-- ===== src/Yes/Behaviour.antt =====
-- When the program `yes` is started, and what `ffiput_char` prints.
use cakeml.Prelude.{
  All-append, ℕ, ◌+◌, ◌^◌, ◌<◌, ◌≡◌, ◌≢◌, refl, arith, false, Option, none, some, List, [], ◌∷◌,
  ◌++◌, map, ◌==◌, All,
}
use cakeml.Machine.Word.{IsByte}
use cakeml.Machine.Run.{ok, fault}
use cakeml.Machine.Output.{Output, stdout, putc}
use cakeml.Double.Text.{c_string-terminated}
use cakeml.Main.{Process, System, layout}
use cakeml.Main.Starts.{IsContiguous, layout-IsContiguous}
use cakeml.Yes.{formatted, ffiput_char, main}

-- A character that `printf` copies.
abbrev pub IsPlain : ℕ → Type 0
IsPlain x = x ≢ b'%'

formatted-plain : (s : List ℕ) (arg : Option (List ℕ)) → All IsPlain s → formatted s arg ≡ some s
unfolding formatted
formatted-plain [] arg h = refl
formatted-plain (x ∷ []) arg h = let test : (x == b'%') ≡ false = ground arith in rw test
formatted-plain (x ∷ y ∷ s) arg h =
    let test : (x == b'%') ≡ false = ground arith in rw (test, formatted-plain (y ∷ s) arg h.1)

formatted-conversion :
    (s t arg : List ℕ)
    → All IsPlain s
    → All IsPlain t
    → formatted (s ++ b'%' ∷ b's' ∷ t) (some arg) ≡ some (s ++ (arg ++ t))
unfolding formatted
formatted-conversion [] t arg h g = rw (formatted-plain t none g)
formatted-conversion (x ∷ []) t arg h g =
    let test : (x == b'%') ≡ false = ground arith in rw (test, formatted-plain t none g)
formatted-conversion (x ∷ y ∷ s) t arg h g =
    let test : (x == b'%') ≡ false = ground arith in
    rw (test, formatted-conversion (y ∷ s) t arg h.1 g)

formatted-percent :
    (s t : List ℕ) (arg : Option (List ℕ))
    → All IsPlain s
    → All IsPlain t
    → formatted (s ++ b'%' ∷ b'%' ∷ t) arg ≡ some (s ++ b'%' ∷ t)
unfolding formatted
formatted-percent [] t arg h g = rw (formatted-plain t arg g)
formatted-percent (x ∷ []) t arg h g =
    let test : (x == b'%') ≡ false = ground arith in rw (test, formatted-plain t arg g)
formatted-percent (x ∷ y ∷ s) t arg h g =
    let test : (x == b'%') ≡ false = ground arith in
    rw (test, formatted-percent (y ∷ s) t arg h.1 g)

formatted-invalid :
    (s : List ℕ) (arg : Option (List ℕ)) → All IsPlain s → formatted (s ++ b'%' ∷ []) arg ≡ none
unfolding formatted
formatted-invalid [] arg h = refl
formatted-invalid (x ∷ []) arg h = let test : (x == b'%') ≡ false = ground arith in rw test
formatted-invalid (x ∷ y ∷ s) arg h =
    let test : (x == b'%') ≡ false = ground arith in rw (test, formatted-invalid (y ∷ s) arg h.1)

abbrev pub IsText : List ℕ → Type 0
IsText s = All (λ x. (0 < x) × IsByte x) s

-- A terminated string without '%' is written to the standard output as it is.
pub put_char_plain :
    (s rest : List ℕ) (out : List Output)
    → IsText s
    → All IsPlain s
    → ffiput_char (s ++ 0 ∷ rest) out ≡ ok tt (out ++ map (putc stdout) s)
unfolding ffiput_char
put_char_plain s rest out text plain =
    rw (c_string-terminated s rest text, formatted-plain s (some (b'%' ∷ b's' ∷ [])) plain)

-- A terminated string is taken as the format of `printf`. Between strings without '%', "%%" comes out
-- as one '%', and "%s" as the argument of `printf`, which is "%s" again; a single '%' at the end is
-- undefined behaviour.
pub put_char_format :
    (s t rest : List ℕ) (out : List Output)
    → IsText s
    → IsText t
    → All IsPlain s
    → All IsPlain t
    → (ffiput_char ((s ++ b'%' ∷ b'%' ∷ t) ++ 0 ∷ rest) out
        ≡ ok tt (out ++ map (putc stdout) (s ++ b'%' ∷ t)))
      × (ffiput_char ((s ++ b'%' ∷ b's' ∷ t) ++ 0 ∷ rest) out
          ≡ ok tt (out ++ map (putc stdout) (s ++ b'%' ∷ b's' ∷ t)))
      × (ffiput_char ((s ++ b'%' ∷ []) ++ 0 ∷ rest) out ≡ fault)
unfolding ffiput_char
put_char_format s t rest out text text' plain plain' =
    let arg : List ℕ = b'%' ∷ b's' ∷ [] in
    let percent : (0 < b'%') × IsByte b'%' = (omega arith, omega arith) in
    let letter : (0 < b's') × IsByte b's' = (omega arith, omega arith) in
    let joined : (m : List ℕ) → IsText m → IsText (s ++ m) =
      λ m h. All-append (λ x. (0 < x) × IsByte x) s m text h in
    (
      rw (
        c_string-terminated (s ++ b'%' ∷ b'%' ∷ t) rest (joined _ (percent, (percent, text'))),
        formatted-percent s t (some arg) plain plain',
      ),
      rw (
        c_string-terminated (s ++ b'%' ∷ b's' ∷ t) rest (joined _ (percent, (letter, text'))),
        formatted-conversion s t arg plain plain',
      ),
      rw (
        c_string-terminated (s ++ b'%' ∷ []) rest (joined _ (percent, tt)),
        formatted-invalid s (some arg) plain,
      ),
    )

-- The program `yes` asks for two gigabytes. With them, in a block that ends below 2 ^ 64, it
-- runs with heap and stack of one gigabyte each next to each other in that block, and nothing
-- printed.
pub main_runs :
    (sys : System) (base : ℕ) (p : Process)
    → sys.malloc (2 ^ 31) ≡ some base
    → base + 2 ^ 31 < 2 ^ 64
    → (q : Process) × (main sys p ≡ sys.cml_main q)
      × IsContiguous base (2 ^ 30) (2 ^ 30) q
      × (q.out ≡ p.out)
unfolding main
main_runs sys base p got fits = (
  layout base (2 ^ 30) (2 ^ 30) p,
  rw got,
  layout-IsContiguous base (2 ^ 30) (2 ^ 30) p (omega arith),
  refl,
)

-- ===== src/Main/Handler.antt =====
-- When the build with EVAL installs the handler for SIGINT.
use cakeml.Prelude.{
  ℕ, ◌+◌, ◌≤◌, ◌<◌, ◌≡◌, refl, sym, ◌∙◌, Bool, true, false, ◌||◌, Bool-cases, ◌⊎◌, ◌↔◌, ◌==◌, arith,
  inl, inr, some, List, [], ◌∷◌, map, length, All,
}
use cakeml.Machine.Word.{IsByte, u64}
use cakeml.Machine.Run.{ok, and_then, pure}
use cakeml.CommandLine.{args_of, terminated}
use cakeml.Files.Fs.{str_eq}
use cakeml.Double.Text.{c_string-terminated}
use cakeml.Main.{
  Process, System, sz, size_from, layout, no_memory, is_interactive, repl_option, candle_option,
  install, wants_handler, prepare_eval, main,
}
use cakeml.Main.Starts.{boot_starts, with_args}

abbrev pub any : (List ℕ → Bool) → List (List ℕ) → Bool
any test [] = false
any test (s ∷ ss) = test s || any test ss

abbrev pub AreText : List (List ℕ) → Type 0
AreText ss = All (λ s. All (λ x. (0 < x) × IsByte x) s) ss

wants_handler_lem :
    (ss : List (List ℕ))
    → AreText ss
    → wants_handler (length ss) (map terminated ss) ≡ some (any is_interactive ss)
unfolding wants_handler
wants_handler_lem [] h = refl
wants_handler_lem (s ∷ ss) h = elim (Bool-cases (is_interactive s)) [
  | inl found_one ↦ rw (wants_handler, c_string-terminated s [] h.0, found_one)
  | inr none_found ↦
      rw (wants_handler, c_string-terminated s [] h.0, none_found) (wants_handler_lem ss h.1)
]

false≢true : false ≡ true → ⊥
false≢true e = cc

or-true : (a b : Bool) → ((a || b) ≡ true) ↔ ((a ≡ true) ⊎ (b ≡ true))
or-true true b = (λ e. inl refl, λ h. refl)
or-true false b = (λ e. inr e, λ h. elim h [ inl e ↦ absurd (false≢true e) | inr e ↦ e ])

str_eq_sound : (s t : List ℕ) → str_eq s t ≡ true → s ≡ t
unfolding str_eq
str_eq_sound [] [] e = refl
str_eq_sound [] (y ∷ t) e = absurd (cc)
str_eq_sound (x ∷ s) [] e = absurd (cc)
str_eq_sound (x ∷ s) (y ∷ t) e = elim (Bool-cases (x == y)) [
  | inl same ↦ let head : x ≡ y = ground arith in let tail = str_eq_sound s t (rw same at e) in cc
  | inr other ↦ absurd (false≢true (rw other at e))
]

str_eq_refl : (s : List ℕ) → str_eq s s ≡ true
unfolding str_eq
str_eq_refl [] = refl
str_eq_refl (x ∷ s) = let same : (x == x) ≡ true = ground arith in rw (same, str_eq_refl s)

-- "--repl" and "--candle".
abbrev pub AsksFor : List ℕ → Type 0
AsksFor s =
    (s ≡ b'-' ∷ b'-' ∷ b'r' ∷ b'e' ∷ b'p' ∷ b'l' ∷ [])
    ⊎ (s ≡ b'-' ∷ b'-' ∷ b'c' ∷ b'a' ∷ b'n' ∷ b'd' ∷ b'l' ∷ b'e' ∷ [])

-- One of the strings is one of the two options.
abbrev pub AnyAsks : List (List ℕ) → Type 0
AnyAsks [] = ⊥
AnyAsks (s ∷ ss) = AsksFor s ⊎ AnyAsks ss

is_interactive-AsksFor : (s : List ℕ) → (is_interactive s ≡ true) ↔ AsksFor s
unfolding is_interactive
is_interactive-AsksFor s = (
  λ e. elim ((or-true (str_eq s repl_option) (str_eq s candle_option)).0 e) [
    | inl r ↦ inl (str_eq_sound s repl_option r)
    | inr c ↦ inr (str_eq_sound s candle_option c)
  ],
  λ asks. elim asks [
    | inl r ↦
        (or-true (str_eq s repl_option) (str_eq s candle_option)).1
          (inl (rw r (str_eq_refl repl_option)))
    | inr c ↦
        (or-true (str_eq s repl_option) (str_eq s candle_option)).1
          (inr (rw c (str_eq_refl candle_option)))
  ],
)

any-AnyAsks : (ss : List (List ℕ)) → (any is_interactive ss ≡ true) ↔ AnyAsks ss
any-AnyAsks [] = (λ e. absurd (cc), λ e. absurd e)
any-AnyAsks (s ∷ ss) = (
  λ e. elim ((or-true (is_interactive s) (any is_interactive ss)).0 e) [
    | inl here ↦ inl ((is_interactive-AsksFor s).0 here)
    | inr there ↦ inr ((any-AnyAsks ss).0 there)
  ],
  λ asks. (or-true (is_interactive s) (any is_interactive ss)).1 (elim asks [
    | inl here ↦ inl ((is_interactive-AsksFor s).1 here)
    | inr there ↦ inr ((any-AnyAsks ss).1 there)
  ]),
)

-- In a build with EVAL, whose code buffer gets its permissions, where both sizes pass the checks
-- of `main`, `malloc` gives their sum and the arguments are terminated strings of bytes: the
-- program is started with the handler for SIGINT installed exactly if one of the arguments is "--repl"
-- or "--candle", or it was installed before; the flag is unchanged and nothing is printed.
pub main_installs :
    (sys : System) (ss : List (List ℕ)) (base : ℕ) (p : Process)
    → AreText ss
    → sys.mprotect ≡ 0
    → sz ≤ size_from sys.heap_env
    → sz ≤ size_from sys.stack_env
    → 8192 ≤ u64 (size_from sys.heap_env + size_from sys.stack_env)
    → sys.malloc (u64 (size_from sys.heap_env + size_from sys.stack_env)) ≡ some base
    → (q : Process) × (main true sys (args_of ss) p ≡ and_then (sys.cml_main q) (λ _. pure 0))
      × ((q.signals.handler ≡ true) ↔ (AnyAsks ss ⊎ (p.signals.handler ≡ true)))
      × (q.signals.caught_sigint ≡ p.signals.caught_sigint)
      × (q.out ≡ p.out)
unfolding main
main_installs sys ss base p text perm hh hs big got =
    let h = size_from sys.heap_env in
    let s = size_from sys.stack_env in
    let laid = layout base h s (with_args (args_of ss) p) in
    let found = wants_handler_lem ss text in
    let starts =
      boot_starts no_memory (prepare_eval sys) sys h s base (with_args (args_of ss) p) hh hs big
        got in
    let prepared : prepare_eval sys laid ≡ ok tt (install (any is_interactive ss) laid) =
      unfold prepare_eval in rw (perm, found) in
    elim (Bool-cases (any is_interactive ss)) [
      | inl found_one ↦ (
        install true laid,
        rw (starts, prepared, found_one),
        (λ e. inl ((any-AnyAsks ss).0 found_one), λ asks. refl),
        refl,
        refl,
      )
      | inr none_found ↦ (
        install false laid,
        rw (starts, prepared, none_found),
        (
          λ e. inr e,
          λ asks. elim asks [
            | inl asked ↦ absurd (false≢true (sym none_found ∙ (any-AnyAsks ss).1 asked))
            | inr before ↦ before
          ],
        ),
        refl,
        refl,
      )
    ]

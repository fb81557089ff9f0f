-- ===== src/Sigint/Reports.antt =====
-- What polls report of signals, in every interleaving.
use cakeml.Prelude.{
  ℕ, suc, zero, ◌+◌, ◌≤◌, ◌≡◌, arith, Bool, false, if◌then◌else◌, List, [], ◌∷◌, length, le→ltb,
}
use cakeml.Machine.Word.{u8}
use cakeml.Machine.Run.{ok}
use cakeml.Machine.Buffer.{call}
use cakeml.Machine.Buffer.Laws.{store_lem}
use cakeml.Sigint.{Signals, ffipoll_sigint, Poll, Event, signal, statement, step, run}

-- The flag is 0 or 1, and each report stands for a signal of its own, with one more signal for a
-- flag that a poll will still see.
pub record IsSound (p : Poll) : Type 0 where
  pub flag : p.caught ≤ 1
  pub answer : p.a0 ≤ 1
  pub counted : p.reports + (if p.stored then 0 else p.caught) ≤ p.signals

-- With no signal between its two statements, a poll that has not begun does what the call does on an
-- array of any length but 0: the stored byte is the flag, the rest of the array is unchanged, and the
-- flag is cleared.
pub poll-statements :
    (p : Poll) (handler : Bool) (x : ℕ) (a : List ℕ)
    → p.stored ≡ false
    → let q = run (statement ∷ statement ∷ []) p in
      ffipoll_sigint
        (length (x ∷ a))
        (call (x ∷ a) (record { caught_sigint = p.caught; handler = handler }))
      ≡ ok tt (call (q.a0 ∷ a) (record { caught_sigint = q.caught; handler = handler }))
unfolding run ffipoll_sigint
poll-statements p handler x a idle = rw (
  le→ltb (length (x ∷ a)) 1 (omega arith),
  idle,
  store_lem {W = Signals} 0 (u8 p.caught) (x ∷ a)
      (record { caught_sigint = p.caught; handler = handler }) (omega arith),
)

-- A signal that arrives before a poll begins is reported by it, whatever was pending, and the
-- next poll, with no signal in between, reports none.
pub poll_reports_once :
    (p : Poll)
    → p.stored ≡ false
    → let q = run (signal ∷ statement ∷ statement ∷ []) p in
      let r = run (statement ∷ statement ∷ []) q in (q.a0 ≡ 1) × (r.a0 ≡ 0)
unfolding run
poll_reports_once p idle = ground arith

abbrev pub statements : ℕ → List Event
statements zero = []
statements (suc n) = statement ∷ statements n

statements_quiet : (n : ℕ) (p : Poll) → p.caught ≡ 0 → p.a0 ≡ 0 → (run (statements n) p).a0 ≡ 0
unfolding run
statements_quiet zero p c a = a
statements_quiet (suc n) p c a = statements_quiet n (step statement p) (ground arith) (ground arith)

-- A signal between the two statements of a poll that saw no signal is lost: that poll stores 0, and
-- so do all later ones until another signal arrives.
pub signal_lost :
    (p : Poll) (polls : ℕ)
    → p.stored ≡ false
    → p.caught ≡ 0
    → let q = run (statement ∷ signal ∷ statement ∷ []) p in
      (q.a0 ≡ 0) × (q.signals ≡ p.signals + 1) × ((run (statements polls) q).a0 ≡ 0)
unfolding run
signal_lost p polls idle clear =
    let q = run (statement ∷ signal ∷ statement ∷ []) p in
    let quiet : q.a0 ≡ 0 = ground arith in
    (quiet, ground arith, statements_quiet polls q (ground arith) quiet)

-- ===== src/Ipc/Event/Laws.antt =====
-- What an event of kernel/src/ipc.rs promises over every sequence of calls.
use nexo_os.Prelude.{
  ℕ, suc, ◌+◌, ◌≤◌, ◌≡◌, refl, Bool, true, false, List, [], ◌∷◌, arith, if◌then◌else◌,
}
use nexo_os.Ipc.Event.{Event, sinalizar, resetar, tomar, register_waiter}

pub data Op : Type 0 where
  signal reset pass : Op
  wait : ℕ → Op

unfoldable pub step : Event → Op → Event × Bool
step e signal = ((sinalizar e).0, false)
step e reset = (resetar e, false)
step e pass = tomar e
step e (wait t) = (register_waiter e t, false)

-- How many calls of `tomar` passed.
unfoldable pub passes : Event → List Op → ℕ
passes e [] = 0
passes e (op ∷ ops) = let (e', passed) = step e op in (if passed then 1 else 0) + passes e' ops

-- How many calls signalled.
unfoldable pub signals : List Op → ℕ
signals [] = 0
signals (signal ∷ ops) = suc (signals ops)
signals (reset ∷ ops) = signals ops
signals (pass ∷ ops) = signals ops
signals (wait t ∷ ops) = signals ops

-- In the automatic mode no more threads pass than there were signals, counting one that was
-- pending: each signal lets at most one thread through, whatever the order of the calls.
pub passes-le-signals :
    (e : Event) (ops : List Op)
    → e.auto ≡ true
    → passes e ops ≤ signals ops + (if e.sinalizado then 1 else 0)
unfolding passes signals step sinalizar resetar tomar register_waiter
passes-le-signals e [] a = omega arith
passes-le-signals e (signal ∷ ops) a = ground (arith, passes-le-signals (sinalizar e).0 ops)
passes-le-signals e (reset ∷ ops) a = ground (arith, passes-le-signals (resetar e) ops)
passes-le-signals e (pass ∷ ops) a = ground (arith, passes-le-signals (tomar e).0 ops)
passes-le-signals e (wait t ∷ ops) a = ground (arith, passes-le-signals (register_waiter e t) ops)

-- The number of `tomar` calls of a sequence.
unfoldable pub tries : List Op → ℕ
tries [] = 0
tries (signal ∷ ops) = tries ops
tries (reset ∷ ops) = tries ops
tries (pass ∷ ops) = suc (tries ops)
tries (wait t ∷ ops) = tries ops

unfoldable pub resets : List Op → ℕ
resets [] = 0
resets (signal ∷ ops) = resets ops
resets (reset ∷ ops) = suc (resets ops)
resets (pass ∷ ops) = resets ops
resets (wait t ∷ ops) = resets ops

-- In the manual mode a signalled event lets every try through until it is reset.
pub passes-eq-tries :
    (e : Event) (ops : List Op)
    → e.auto ≡ false
    → e.sinalizado ≡ true
    → resets ops ≡ 0
    → passes e ops ≡ tries ops
unfolding passes tries resets step sinalizar tomar register_waiter
passes-eq-tries e [] a s r = refl
passes-eq-tries e (signal ∷ ops) a s r = ground (arith, passes-eq-tries (sinalizar e).0 ops)
passes-eq-tries e (reset ∷ ops) a s r = absurd (omega arith)
passes-eq-tries e (pass ∷ ops) a s r = ground (arith, passes-eq-tries (tomar e).0 ops)
passes-eq-tries e (wait t ∷ ops) a s r = ground (arith, passes-eq-tries (register_waiter e t) ops)

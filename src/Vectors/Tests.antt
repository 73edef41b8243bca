-- ===== src/Vectors/Tests.antt =====
-- The theorems on kernel/src/irq.rs at concrete vectors.
use nexo_os.Prelude.{ℕ, ◌<◌, ◌≤◌, ◌⊎◌, inl, inr, ◌≡◌, refl, false, [], ◌∷◌, some, arith, replicate}
use nexo_os.Ipc.Ends.{Ipc}
use nexo_os.Scheduler.Queues.{count}
use nexo_os.Vectors.{
  Vectors, attaches, user_vectors, alloc, on_interrupt, run, wait_turn, is_user_vector,
}
use nexo_os.Vectors.Delivery.{wait-on_interrupt}

-- All free, and thread 4 waits for vector 0x51.
abbrev fresh : Vectors
fresh = record {
  counts = replicate user_vectors 0;
  allocated = replicate user_vectors false;
  waiters = (0x51, 4) ∷ [];
  channels = [];
}

abbrev no_ends : Ipc
no_ends = record {
  channels = [];
  ends = [];
  registry = [];
  live_ends = 0;
  collected = 0;
  inflight = 0;
  generation = 0;
}

abbrev taken : Vectors
unfolding alloc
taken = (alloc fresh).0

fresh-alloc : alloc fresh ≡ (taken, some 0x50)
unfolding alloc
fresh-alloc = refl

-- Thread 9 parks before an interrupt of its vector.
wait-on_interrupt_example :
    let (s', i', woken) = run fresh no_ends (attaches 0x51 7 ∷ []) in
    let (s'', out) = wait_turn s' 0x51 0 (some 9) in
    ((c : ℕ) × (out ≡ some c) × (0 < c)) ⊎ (1 ≤ count 9 (run s'' i' (on_interrupt 0x51)).2)
unfolding is_user_vector on_interrupt
wait-on_interrupt_example =
    wait-on_interrupt fresh no_ends 0x51 9 (attaches 0x51 7 ∷ []) (on_interrupt 0x51) refl refl
      (omega arith) (inr (inr (inl (refl, inl (refl, inl (refl, tt))))))

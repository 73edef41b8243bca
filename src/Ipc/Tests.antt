-- ===== src/Ipc/Tests.antt =====
-- The theorems on kernel/src/ipc.rs at concrete channels, tables and events.
use nexo_os.Prelude.{
  ℕ, ◌+◌, ◌≤◌, ◌≡◌, refl, true, false, List, [], ◌∷◌, ◌++◌, some, none, ok, err, arith, replicate,
}
use nexo_os.Ipc.Types.{Handle, channel, event, no_memory, peer_closed}
use nexo_os.Ipc.Payload.{Payload}
use nexo_os.Ipc.Event.{Event, new}
use nexo_os.Ipc.Event.Laws.{signal, pass, passes, signals, passes-le-signals}
use nexo_os.Ipc.Handles.{Table, handles_max, insert, slot, len}
use nexo_os.Ipc.Handles.Laws.{take-insert}
use nexo_os.Ipc.Channel.{Channel, first, second, Message, half, create, close, send, try_recv}
use nexo_os.Ipc.Channel.Fifo.{
  sends, turns, closes, waits, run, collect, puts, gots, IsBounded, run_fifo, run-create-IsBounded,
}
use nexo_os.Ipc.Channel.Wakeups.{
  AllAlert, times, parked, unparked, waiting, tried, run-create-AllAlert, close-peer,
}
use nexo_os.Ipc.Ends.{Ipc}
use nexo_os.Ipc.Collector.{History}

passes-le-signals_example :
    passes (new true) (signal ∷ pass ∷ pass ∷ []) ≤ signals (signal ∷ pass ∷ pass ∷ []) + 0
unfolding new
passes-le-signals_example = passes-le-signals (new true) (signal ∷ pass ∷ pass ∷ []) refl

abbrev raised : Event
raised = record { sinalizado = true; waiters = 4 ∷ 3 ∷ []; auto = false }

abbrev loose : Handle
loose = record { object = event 5; rights = 1 }

abbrev sparse : Table
sparse = some loose ∷ none ∷ []

abbrev filled : Table
filled = some loose ∷ some loose ∷ []

sparse-insert : insert sparse loose ≡ ok (1, filled)
unfolding insert nexo_os.Ipc.Handles.first_free
sparse-insert = refl

take-insert_example :
    (t : Table) × (nexo_os.Ipc.Handles.take filled 1 ≡ ok (loose, t))
    × ((j : ℕ) → slot t j ≡ slot sparse j)
take-insert_example = take-insert sparse loose (omega arith) sparse-insert

abbrev crowded : Table
crowded = replicate handles_max (some loose)

crowded-insert : insert crowded loose ≡ err no_memory
unfolding insert nexo_os.Ipc.Handles.first_free
crowded-insert = refl

abbrev hello : Message
hello = record { payload = Payload.heap (1 ∷ []); handles = [] }

abbrev talk : List nexo_os.Ipc.Channel.Fifo.Op
talk =
    sends first hello
    ∷ turns second false (some 9)
    ∷ turns second false (some 9)
    ∷ closes first
    ∷ []

run_fifo_example :
    collect (gots second) (run create talk).1 ++ (half (run create talk).0 second).queue
    ≡ (half create second).queue ++ collect (puts second) (run create talk).1
run_fifo_example = run_fifo create second talk (tt, (tt, (tt, (refl, tt))))

run-create-IsBounded_example : IsBounded (run create talk).0
run-create-IsBounded_example = run-create-IsBounded talk

run-create-AllAlert_example :
    AllAlert (run create talk).0
    × ((t : ℕ)
        → times t parked create talk ≡ waiting (run create talk).0 t + times t unparked create talk)
run-create-AllAlert_example = run-create-AllAlert talk (tt, (tt, (tt, (tt, tt))))

abbrev told : Channel
told = (run create (sends first hello ∷ [])).0

close-peer_example :
    (tried 2 (close told first).0 second ≡ ok hello ∷ err peer_closed ∷ [])
    × (send (close told first).0 second hello ≡ err peer_closed)
    × ((close told first).1 ≡ [])
    × ((half (close told first).0 second).waiters ≡ [])
unfolding run nexo_os.Ipc.Channel.Fifo.step send create
close-peer_example = close-peer told first hello

-- A channel both of whose ends have left the kernel's hands.
abbrev pair : Ipc
pair = record {
  channels = create ∷ [];
  ends =
      record { inner = 0; side = first; pinned = false; closed_by_me = false }
      ∷ record { inner = 0; side = second; pinned = false; closed_by_me = false }
      ∷ [];
  registry = 0 ∷ 1 ∷ [];
  live_ends = 2;
  collected = 0;
  inflight = 0;
  generation = 0;
}

-- A process holds end 0.
abbrev holder : List Table
holder = (some (record { object = channel 0; rights = 1 }) ∷ []) ∷ []

-- Nobody else runs.
abbrev calm : History
calm t = record { ipc = pair; live = holder }

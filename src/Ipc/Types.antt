-- ===== src/Ipc/Types.antt =====
-- The shared types of kernel/src/ipc.rs and the statuses of abi/syscall/src/lib.rs.
--
-- An `Arc` is the number of the object that it points to, so `Arc::ptr_eq` is equality of numbers.
use nexo_os.Prelude.{ℕ}

pub data Status : Type 0 where
  invalid_args bad_address not_supported no_memory not_found denied peer_closed bad_handle : Status
  would_block too_big queue_full timed_out unknown : Status

-- The objects a handle names.
pub data Object : Type 0 where
  channel process device memory job thread : ℕ → Object
  debug : Object
  event : ℕ → Object

-- `Object::kind`, with the `KIND_*` numbers of the ABI.
unfoldable pub kind : Object → ℕ
kind (channel e) = 1
kind (process p) = 2
kind (device d) = 3
kind (memory m) = 4
kind (job j) = 6
kind (thread t) = 7
kind debug = 5
kind (event e) = 8

pub record Handle : Type 0 where
  pub object : Object
  pub rights : ℕ

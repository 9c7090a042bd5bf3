-- ===== src/Runtime/Store.antt =====
-- The interfaces that the runtime takes a store by: `StateStore`, `ProcessingLocker` and
-- `ProcessingLease` of app/slip/state_store.go; and `MemoryStateStore` as such a store.
use routing_slip_pattern.Common.{String, Option, some}
use routing_slip_pattern.Common.Int.{ℤ}
use routing_slip_pattern.Slip.Errors.{GoError}
use routing_slip_pattern.Slip.Snapshot.{MessageSnapshot}
use routing_slip_pattern.Slip.Trace.{Context}
use routing_slip_pattern.Slip.Router.{World, Save}
use routing_slip_pattern.Slip.Router.Attempts.{context_err}
use routing_slip_pattern.Slip.Store.Memory.{
  MemoryStateStore, ProcessingLease, Result, save, load, try_acquire_processing, release,
}

pub record ProcessingLocker (W : Type 0) : Type 0 where
  pub try_acquire :
      Context → (message_id owner : String) → ℤ → W → Result (Option ProcessingLease) × W
  pub release : Context → ProcessingLease → W → Option GoError × W

-- `locker` is the store's side of `ProcessingLocker`, if it has one.
pub record StateStore (W : Type 0) : Type 0 where
  pub save : Save W
  pub load : Context → String → W → Result MessageSnapshot × W
  pub locker : Option (ProcessingLocker W)

-- Where a world keeps a store in memory.
pub record Keeps (W : Type 0) : Type 0 where
  pub view : W → MemoryStateStore
  pub update : MemoryStateStore → W → W

module _ {W : Type 0} (world : World W) (k : Keeps W) where
  -- A method on the store of the world, under `ctx.Err()`.
  abbrev pub on_store :
      {A : Type 0}
      → Context
      → (Option GoError → MemoryStateStore → A × MemoryStateStore)
      → W
      → A × W
  on_store ctx method w =
      let (ended, w') = context_err world ctx w in
      let (a, store) = method ended (k.view w') in (a, k.update store w')

  abbrev pub acquire_now :
      Context → (message_id owner : String) → ℤ → W → Result (Option ProcessingLease) × W
  acquire_now ctx id owner ttl w =
      let (now, w') = world.now w in
      on_store ctx (λ ended store. try_acquire_processing ended id owner ttl now store) w'

  abbrev pub memory_store : StateStore W
  memory_store = record {
    save = λ ctx s. on_store ctx (λ ended store. save ended s store);
    load = λ ctx id. on_store ctx (λ ended store. (load ended id store, store));
    locker = some (record {
      try_acquire = acquire_now;
      release = λ ctx lease. on_store ctx (λ ended store. release ended lease store);
    });
  }

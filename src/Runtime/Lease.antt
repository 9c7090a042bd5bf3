-- ===== src/Runtime/Lease.antt =====
-- The claim of a message around `processPayload` of app/triggers.go, on a store in memory.
use routing_slip_pattern.Common.{
  ℕ, String, Bool, true, false, Option, none, some, ◌≡◌, refl, subst, arith, eq_iff,
}
use routing_slip_pattern.Common.Dict.{Dict, lookup, lookup-delete}
use routing_slip_pattern.Common.Text.{trim_space, is_empty}
use routing_slip_pattern.Value.{Fields}
use routing_slip_pattern.Slip.Errors.{processing_locked}
use routing_slip_pattern.Slip.Trace.{Context}
use routing_slip_pattern.Slip.Router.{World}
use routing_slip_pattern.Slip.Router.Attempts.{context_err}
use routing_slip_pattern.Slip.Store.Memory.{
  MemoryStateStore, ProcessingLease, release, owned_by, try_acquire_processing, is_held,
}
use routing_slip_pattern.Runtime.Store.{Keeps, memory_store}
use routing_slip_pattern.Runtime.{
  Platform, AppRuntime, Reply, replied, refused, panicking, Claim, taken, granted, at_exit,
  exit_with, acquire_processing_lease, release_lease, run_claimed, run_under, process_payload,
  lock_switched_off, named,
}

-- The runtime with its store in memory.
abbrev pub in_memory : {W : Type 0} → World W → Keeps W → AppRuntime W → AppRuntime W
in_memory world k rt = record rt { store = memory_store world k }

abbrev pub world_of : {W : Type 0} → Reply W → W
world_of (replied m e w) = w
world_of (refused e w) = w
world_of (panicking v w) = w

-- The store that is written is the store that is read.
abbrev pub IsLawful : {W : Type 0} → Keeps W → Type 0
IsLawful {W} k = (store : MemoryStateStore) (w : W) → k.view (k.update store w) ≡ store

-- The lock of the lease is in the store.
abbrev pub is_locked_by : ProcessingLease → MemoryStateStore → Bool
unfolding lookup
is_locked_by lease store = owned_by lease.owner (lookup lease.message_id store.locks)

release_frees :
    (lease : ProcessingLease) (store : MemoryStateStore)
    → is_locked_by lease (release none lease store).1 ≡ false
unfolding release
release_frees lease store = ground (
  arith,
  lookup-delete lease.message_id lease.message_id store.locks,
  eq_iff lease.message_id lease.message_id,
)

module _ {W : Type 0} (world : World W) (platform : Platform W) (k : Keeps W)
    (rt : AppRuntime W) where
  release_lease_frees :
      (lease : ProcessingLease) (w : W)
      → IsLawful k
      → is_locked_by lease
          (k.view (release_lease world platform (in_memory world k rt) (some lease) w))
        ≡ false
  unfolding release_lease context_err
  release_lease_frees lease w lawful = rw (lawful _ w) (release_frees lease (k.view w))

  exit_frees :
      (lease : ProcessingLease) (reply : Reply W)
      → IsLawful k
      → is_locked_by lease (
          k.view (
            world_of
              (at_exit (release_lease world platform (in_memory world k rt) (some lease)) reply)))
        ≡ false
  exit_frees lease (replied m e w) lawful = release_lease_frees lease w lawful
  exit_frees lease (refused e w) lawful = release_lease_frees lease w lawful
  exit_frees lease (panicking v w) lawful = release_lease_frees lease w lawful

  exit_with_frees :
      (lease : ProcessingLease) (o : Option (Reply W)) (reply : Reply W)
      → IsLawful k
      → exit_with (release_lease world platform (in_memory world k rt) (some lease)) o ≡ some reply
      → is_locked_by lease (k.view (world_of reply)) ≡ false
  exit_with_frees lease none reply lawful e = absurd (ground (arith, e))
  exit_with_frees lease (some r) reply lawful e =
      subst
        (λ (o : Option (Reply W)). elim o [
          | none ↦ Unit
          | some q ↦ is_locked_by lease (k.view (world_of q)) ≡ false
        ])
        e (exit_frees lease r lawful)

  under_frees :
      (fuel : ℕ) (ctx : Context) (id correlation : String) (payload : Fields)
      (headers : Dict String) (claim : Claim × W) (w : W) (lease : ProcessingLease)
      (reply : Reply W)
      → IsLawful k
      → claim ≡ (granted (some lease), w)
      → run_under world platform
          (in_memory world k rt)
          fuel
          ctx
          id
          correlation
          payload
          headers
          claim.0
          claim.1
        ≡ some reply
      → is_locked_by lease (k.view (world_of reply)) ≡ false
  unfolding run_under
  under_frees fuel ctx id correlation payload headers claim w lease reply lawful c e =
      exit_with_frees lease
        (run_claimed world platform (in_memory world k rt) fuel ctx id correlation payload headers
          w)
        reply lawful (rw (c, run_under) at e)

-- On a store in memory, where `processPayload` has claimed its message with a lease and ends with an
-- answer, the store has no lock of that lease's owner on that message any more, whatever the handlers
-- did: with a result, with an error, and with a panic alike.
pub process_payload_releases :
    {W : Type 0} (world : World W) (platform : Platform W) (k : Keeps W) (rt : AppRuntime W)
    (fuel : ℕ) (ctx : Context) (payload : Fields) (headers : Dict String) (w w' : W)
    (lease : ProcessingLease) (reply : Reply W)
    → IsLawful k
    → acquire_processing_lease world platform
        (in_memory world k rt)
        ctx
        (named world platform (in_memory world k rt) payload w).0
        (named world platform (in_memory world k rt) payload w).1
      ≡ (granted (some lease), w')
    → process_payload world platform (in_memory world k rt) fuel ctx payload headers w ≡ some reply
    → is_locked_by lease (k.view (world_of reply)) ≡ false
unfolding process_payload named
process_payload_releases world platform k rt fuel ctx payload headers w w' lease reply lawful claim
      e =
    under_frees world platform k rt fuel ctx _ _ _ headers _ w' lease reply lawful claim e

module _ {W : Type 0} (world : World W) (platform : Platform W) (k : Keeps W)
    (rt : AppRuntime W) where
  held_taken :
      (ctx : Context) (id : String) (w w' w'' : W) (now : ℕ)
      → lock_switched_off world platform rt ≡ false
      → world.now w ≡ (now, w')
      → context_err world ctx w' ≡ (none, w'')
      → is_empty (trim_space id) ≡ false
      → is_held now (lookup (trim_space id) (k.view w'').locks) ≡ true
      → acquire_processing_lease world platform (in_memory world k rt) ctx id w
        ≡ (taken, k.update (k.view w'') w'')
  unfolding acquire_processing_lease try_acquire_processing
  held_taken ctx id w w' w'' now on time going full held = rw (on, time, going, full, held) refl

  taken_refuses :
      (fuel : ℕ) (ctx : Context) (id correlation : String) (payload : Fields)
      (headers : Dict String) (claim : Claim × W) (w : W)
      → claim ≡ (taken, w)
      → run_under world platform
          (in_memory world k rt)
          fuel
          ctx
          id
          correlation
          payload
          headers
          claim.0
          claim.1
        ≡ some (refused (processing_locked id) w)
  unfolding run_under
  taken_refuses fuel ctx id correlation payload headers claim w e = rw e refl

  locked_at :
      (fuel : ℕ) (ctx : Context) (headers : Dict String) (id : String) (now : ℕ)
      (correlation : String) (payload : Fields) (at : String × W) (w w' v : W)
      → at ≡ (id, w)
      → lock_switched_off world platform rt ≡ false
      → world.now w ≡ (now, w')
      → context_err world ctx w' ≡ (none, v)
      → is_empty (trim_space id) ≡ false
      → is_held now (lookup (trim_space id) (k.view v).locks) ≡ true
      → (let claim = acquire_processing_lease world platform (in_memory world k rt) ctx at.0 at.1 in
          run_under world platform
            (in_memory world k rt)
            fuel
            ctx
            at.0
            correlation
            payload
            headers
            claim.0
            claim.1)
        ≡ some (refused (processing_locked id) (k.update (k.view v) v))
  locked_at fuel ctx headers id now correlation payload at w w' v e on time going full held = rw e (
      taken_refuses fuel ctx id correlation payload headers _ _
        (held_taken ctx id w w' v now on time going full held))

-- On a store in memory, with the processing lock on and a context that is not ended, a payload whose
-- message, by an id that is not blank, is locked past the present time is refused with
-- `ErrProcessingLocked` of its id: no handler runs, with any fuel, and the store is left as it is.
pub process_payload_locked :
    {W : Type 0} (world : World W) (platform : Platform W) (k : Keeps W) (rt : AppRuntime W)
    (fuel : ℕ) (ctx : Context) (payload : Fields) (headers : Dict String) (id : String) (now : ℕ)
    (w w' w'' v : W)
    → named world platform (in_memory world k rt) payload w ≡ (id, w')
    → lock_switched_off world platform rt ≡ false
    → world.now w' ≡ (now, w'')
    → context_err world ctx w'' ≡ (none, v)
    → is_empty (trim_space id) ≡ false
    → is_held now (lookup (trim_space id) (k.view v).locks) ≡ true
    → process_payload world platform (in_memory world k rt) fuel ctx payload headers w
      ≡ some (refused (processing_locked id) (k.update (k.view v) v))
unfolding process_payload named
process_payload_locked world platform k rt fuel ctx payload headers id now w w' w'' v at on time
      going full held =
    locked_at world platform k rt fuel ctx headers id now _ _ _ w' w'' v at on time going full held

-- ===== src/Slip/Store/Memory/Locks.antt =====
-- Who holds a message.
use routing_slip_pattern.Common.{
  ℕ, ◌+◌, ◌<◌, String, false, List, [], ◌∷◌, Option, none, some, ◌≡◌, ◌≢◌, arith, eq_iff, ◌⊎◌, ◌∙◌,
  ap, sym,
}
use routing_slip_pattern.Common.Int.{ℤ}
use routing_slip_pattern.Common.Text.{trim_space, is_empty}
use routing_slip_pattern.Common.Dict.{lookup, lookup-insert, lookup-delete}
use routing_slip_pattern.Slip.Errors.{GoError}
use routing_slip_pattern.Slip.Snapshot.{MessageSnapshot}
use routing_slip_pattern.Slip.Store.Memory.{
  MemoryStateStore, ProcessingLease, Result, ok, lock_ttl, lock_owner, save, try_acquire_processing,
  release,
}

-- A call on the store by some worker, at a time.
pub data Call : Type 0 where
  saves : Option GoError → MessageSnapshot → Call
  acquires : Option GoError → (message_id owner : String) → ℤ → ℕ → Call
  releases : Option GoError → ProcessingLease → Call

step : Call → MemoryStateStore → MemoryStateStore
step (saves ended s) store = (save ended s store).1
step (acquires ended id owner ttl now) store =
    (try_acquire_processing ended id owner ttl now store).1
step (releases ended lease) store = (release ended lease store).1

pub run : List Call → MemoryStateStore → MemoryStateStore
unfolding step
run [] store = store
run (c ∷ cs) store = run cs (step c store)

-- The call comes before `expiry` and does not release a lease of `owner` on `id`.
abbrev pub Leaves : (id owner : String) → ℕ → Call → Type 0
Leaves id owner expiry (saves ended s) = Unit
Leaves id owner expiry (acquires ended id' owner' ttl now) = now < expiry
Leaves id owner expiry (releases ended lease) = (lease.message_id ≢ id) ⊎ (lease.owner ≢ owner)

abbrev pub AllLeave : (id owner : String) → ℕ → List Call → Type 0
AllLeave id owner expiry [] = Unit
AllLeave id owner expiry (c ∷ cs) = Leaves id owner expiry c × AllLeave id owner expiry cs

-- The store has the lock of `owner` on `id`, up to `expiry`.
abbrev pub Holds : (id owner : String) → ℕ → MemoryStateStore → Type 0
Holds id owner expiry store =
    lookup id store.locks ≡ some (record { owner = owner; expires_at = expiry })

acquire-Holds :
    (id owner : String) (expiry : ℕ) (ended : Option GoError) (id' owner' : String) (ttl : ℤ)
    (now : ℕ) (store : MemoryStateStore)
    → now < expiry
    → Holds id owner expiry store
    → Holds id owner expiry (try_acquire_processing ended id' owner' ttl now store).1
unfolding try_acquire_processing
acquire-Holds id owner expiry (some e) id' owner' ttl now store early h = h
acquire-Holds id owner expiry none id' owner' ttl now store early h = ground (
  arith,
  eq_iff (trim_space id') id,
  lookup-insert (trim_space id') id
      (record { owner = lock_owner owner'; expires_at = now + lock_ttl ttl }) store.locks,
)

release-Holds :
    (id owner : String) (expiry : ℕ) (ended : Option GoError) (lease : ProcessingLease)
    (store : MemoryStateStore)
    → (lease.message_id ≢ id) ⊎ (lease.owner ≢ owner)
    → Holds id owner expiry store
    → Holds id owner expiry (release ended lease store).1
unfolding release
release-Holds id owner expiry (some e) lease store other h = h
release-Holds id owner expiry none lease store other h = ground (
  arith,
  eq_iff lease.message_id id,
  eq_iff owner lease.owner,
  lookup-delete lease.message_id id store.locks,
)

step-Holds :
    (id owner : String) (expiry : ℕ) (c : Call) (store : MemoryStateStore)
    → Leaves id owner expiry c
    → Holds id owner expiry store
    → Holds id owner expiry (step c store)
unfolding step save
step-Holds id owner expiry (saves (some e) s) store l h = h
step-Holds id owner expiry (saves none s) store l h = h
step-Holds id owner expiry (acquires ended id' owner' ttl now) store l h =
    acquire-Holds id owner expiry ended id' owner' ttl now store l h
step-Holds id owner expiry (releases ended lease) store l h =
    release-Holds id owner expiry ended lease store l h

run-Holds :
    (id owner : String) (expiry : ℕ) (cs : List Call) (store : MemoryStateStore)
    → AllLeave id owner expiry cs
    → Holds id owner expiry store
    → Holds id owner expiry (run cs store)
unfolding run
run-Holds id owner expiry [] store l h = h
run-Holds id owner expiry (c ∷ cs) store l h =
    run-Holds id owner expiry cs (step c store) l.1 (step-Holds id owner expiry c store l.0 h)

-- A successful claim puts the lock in the store.
acquired-Holds :
    (id owner : String) (ttl : ℤ) (now : ℕ) (store : MemoryStateStore) (lease : ProcessingLease)
    → (try_acquire_processing none id owner ttl now store).0 ≡ ok (some lease)
    → (lease.message_id ≡ trim_space id)
      × Holds lease.message_id lease.owner
          (now + lock_ttl ttl)
          (try_acquire_processing none id owner ttl now store).1
unfolding try_acquire_processing
acquired-Holds id owner ttl now store lease e = ground (
  arith,
  eq_iff (trim_space id) (trim_space id),
  lookup-insert (trim_space id) (trim_space id)
      (record { owner = lock_owner owner; expires_at = now + lock_ttl ttl }) store.locks,
)

held_refused :
    (id id' owner owner' : String) (ttl : ℤ) (expiry now : ℕ) (store : MemoryStateStore)
    → Holds id owner expiry store
    → now < expiry
    → trim_space id' ≡ id
    → is_empty id ≡ false
    → try_acquire_processing none id' owner' ttl now store ≡ (ok none, store)
unfolding try_acquire_processing
held_refused id id' owner owner' ttl expiry now store h early e full =
    rw (e, full, h) (ground arith)

-- From a successful claim of a message, whose id is not blank, until its time is up, every claim of the same message is refused, by
-- whatever owner and through whatever other calls on the store, as long as each of them comes before
-- that time and none releases a lease of this owner on this message.
pub claim_exclusive :
    (id id' owner owner' : String) (ttl ttl' : ℤ) (now later : ℕ) (store : MemoryStateStore)
    (lease : ProcessingLease) (cs : List Call)
    → (try_acquire_processing none id owner ttl now store).0 ≡ ok (some lease)
    → AllLeave lease.message_id lease.owner (now + lock_ttl ttl) cs
    → trim_space id' ≡ trim_space id
    → is_empty (trim_space id) ≡ false
    → later < now + lock_ttl ttl
    → (try_acquire_processing none id' owner' ttl' later
        (run cs (try_acquire_processing none id owner ttl now store).1)).0
      ≡ ok none
claim_exclusive id id' owner owner' ttl ttl' now later store lease cs e l same full early =
    let (at, h) = acquired-Holds id owner ttl now store lease e in
    let kept = run-Holds lease.message_id lease.owner (now + lock_ttl ttl) cs _ l h in
    ap (λ (p : Result (Option ProcessingLease) × MemoryStateStore). p.0)
      (held_refused lease.message_id id' lease.owner owner' ttl' (now + lock_ttl ttl) later
        (run cs (try_acquire_processing none id owner ttl now store).1) kept early (same ∙ sym at)
        (rw at full))

release_frees :
    (lease : ProcessingLease) (id' owner' : String) (ttl : ℤ) (expiry now : ℕ)
    (store : MemoryStateStore)
    → Holds lease.message_id lease.owner expiry store
    → trim_space id' ≡ lease.message_id
    → is_empty lease.message_id ≡ false
    → (try_acquire_processing none id' owner' ttl now (release none lease store).1).0
      ≡ ok (some (record { message_id = lease.message_id; owner = lock_owner owner' }))
unfolding release try_acquire_processing
release_frees lease id' owner' ttl expiry now store h plain full = ground (
  arith,
  eq_iff lease.message_id lease.message_id,
  eq_iff lease.owner lease.owner,
  lookup-delete lease.message_id lease.message_id store.locks,
)

-- A successful claim returns the lease of its message and its owner.
acquired_lease :
    (id owner : String) (ttl : ℤ) (now : ℕ) (store : MemoryStateStore) (lease : ProcessingLease)
    → (try_acquire_processing none id owner ttl now store).0 ≡ ok (some lease)
    → lease ≡ record { message_id = trim_space id; owner = lock_owner owner }
unfolding try_acquire_processing
acquired_lease id owner ttl now store lease e = ground arith

-- Where one owner claims a message, whose id is not blank, and successfully claims it once more, the
-- release of the first lease frees the message: a third worker then claims it at any time, whatever
-- time the second claim has left.
pub overrun_breaks_claim :
    (id id' owner owner' : String) (ttl ttl' : ℤ) (first second third : ℕ)
    (store : MemoryStateStore) (lease lease' : ProcessingLease)
    → (try_acquire_processing none id owner ttl first store).0 ≡ ok (some lease)
    → (try_acquire_processing none id owner ttl second
        (try_acquire_processing none id owner ttl first store).1).0
      ≡ ok (some lease')
    → trim_space id' ≡ trim_space id
    → is_empty (trim_space id) ≡ false
    → (try_acquire_processing none id' owner' ttl' third
        (release none lease
          (try_acquire_processing none id owner ttl second
            (try_acquire_processing none id owner ttl first store).1).1).1).0
      ≡ ok (some (record { message_id = trim_space id; owner = lock_owner owner' }))
overrun_breaks_claim id id' owner owner' ttl ttl' first second third store lease lease' e e' same
      full =
    let store' = (try_acquire_processing none id owner ttl first store).1 in
    let one = acquired_lease id owner ttl first store lease e in
    let two = acquired_lease id owner ttl second store' lease' e' in
    rw one (
      release_frees (record { message_id = trim_space id; owner = lock_owner owner }) id' owner'
        ttl' (second + lock_ttl ttl) third
        (try_acquire_processing none id owner ttl second store').1
        (rw two at (acquired-Holds id owner ttl second store' lease' e').1) same full)

-- ===== src/Slip/Store/Memory.antt =====
-- `MemoryStateStore` of app/slip/state_store.go. Its mutex makes each method one step on the store.
-- `ended` is `ctx.Err()` at the call, `now` is `time.Now()`.
pub mod Snapshots
pub mod Locks
pub mod Refines
use routing_slip_pattern.Common.{
  ℕ, ◌+◌, String, Bool, List, [], ◌∷◌, map, Option, none, some, str_eq, ltb, if◌then◌else◌,
}
use routing_slip_pattern.Common.Int.{ℤ, pos, is_positive, pos_part}
use routing_slip_pattern.Common.Text.{trim_space, is_empty}
use routing_slip_pattern.Common.Dict.{Dict, lookup, insert, delete}
use routing_slip_pattern.Slip.Errors.{GoError, state_not_found, id_required}
use routing_slip_pattern.Slip.Snapshot.{MessageSnapshot}
use routing_slip_pattern.Slip.Store.Filter.{SnapshotFilter, list_from}

pub record ProcessingLock : Type 0 where
  pub owner : String
  pub expires_at : ℕ

pub record MemoryStateStore : Type 0 where
  pub snapshots : Dict MessageSnapshot
  pub locks : Dict ProcessingLock

-- The store is shared; a lease names the message and the owner.
pub record ProcessingLease : Type 0 where
  pub message_id : String
  pub owner : String

pub data Result {ℓ} (A : Type ℓ) : Type ℓ where
  ok : A → Result A
  err : GoError → Result A

abbrev pub empty_store : MemoryStateStore
empty_store = record { snapshots = []; locks = [] }

unfoldable pub save :
    Option GoError → MessageSnapshot → MemoryStateStore → Option GoError × MemoryStateStore
unfolding insert
save ended s store = elim ended [
  | some e ↦ (some e, store)
  | none ↦ (none, record store { snapshots = insert s.id s store.snapshots })
]

unfoldable pub load : Option GoError → String → MemoryStateStore → Result MessageSnapshot
unfolding lookup
load ended id store = elim ended [
  | some e ↦ err e
  | none ↦ elim (lookup id store.snapshots) [ none ↦ err (state_not_found id) | some s ↦ ok s ]
]

-- `order` is the order in which the map is iterated.
unfoldable pub list_snapshots :
    Option GoError
    → SnapshotFilter
    → (Dict MessageSnapshot → List MessageSnapshot)
    → MemoryStateStore
    → Result (List MessageSnapshot)
unfolding list_from
list_snapshots ended f order store = elim ended [
  | some e ↦ err e
  | none ↦ ok (list_from f [] (order store.snapshots))
]

-- The duration that a lock is taken for: a minute unless `ttl` is positive.
abbrev pub lock_ttl : ℤ → ℕ
lock_ttl ttl = if is_positive ttl then pos_part ttl else 60000000000

abbrev pub lock_owner : String → String
lock_owner owner = if is_empty owner then "memory" else owner

-- The lock is held at `now`.
abbrev pub is_held : ℕ → Option ProcessingLock → Bool
is_held now none = Bool.false
is_held now (some l) = ltb now l.expires_at

-- `ok none` is `(nil, false, nil)`: another claim holds.
unfoldable pub try_acquire_processing :
    Option GoError
    → (message_id owner : String) → ℤ
    → ℕ
    → MemoryStateStore
    → Result (Option ProcessingLease) × MemoryStateStore
unfolding lookup insert trim_space
try_acquire_processing ended message_id owner ttl now store =
    let id = trim_space message_id in
    let lock : ProcessingLock = record {
      owner = lock_owner owner;
      expires_at = now + lock_ttl ttl;
    } in
    let taken : Result (Option ProcessingLease) × MemoryStateStore = (
      ok (some (record { message_id = id; owner = lock_owner owner })),
      record store { locks = insert id lock store.locks },
    ) in
    elim ended [
      | some e ↦ (err e, store)
      | none ↦
          if is_empty id
          then (err id_required, store)
          else if is_held now (lookup id store.locks)
          then (ok none, store)
          else taken
    ]

abbrev pub owned_by : String → Option ProcessingLock → Bool
owned_by owner none = Bool.false
owned_by owner (some l) = str_eq l.owner owner

unfoldable pub release :
    Option GoError → ProcessingLease → MemoryStateStore → Option GoError × MemoryStateStore
unfolding lookup delete
release ended lease store = elim ended [
  | some e ↦ (some e, store)
  | none ↦ (
    none,
    if owned_by lease.owner (lookup lease.message_id store.locks)
        then record store { locks = delete lease.message_id store.locks }
        else store,
  )
]

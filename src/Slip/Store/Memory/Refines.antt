-- ===== src/Slip/Store/Memory/Refines.antt =====
-- What `MemoryStateStore` of app/slip/state_store.go promises: a snapshot for an id, and a holder for
-- a message at a time. Locks that have run out, and the order of entries, are forgotten.
use routing_slip_pattern.Common.{
  ℕ, ◌+◌, String, List, [], ◌∷◌, Option, none, some, ◌≡◌, refl, ap, ◌∙◌, fun_ext, arith, eq_iff,
  str_eq, ltb, if◌then◌else◌, Bool-cases, inl, inr, if_rule,
}
use routing_slip_pattern.Common.Int.{ℤ}
use routing_slip_pattern.Common.Text.{trim_space, is_empty}
use routing_slip_pattern.Common.Dict.{Dict, lookup, insert, delete, lookup-insert, lookup-delete}
use routing_slip_pattern.Slip.Errors.{GoError, state_not_found, id_required}
use routing_slip_pattern.Slip.Snapshot.{MessageSnapshot}
use routing_slip_pattern.Slip.Store.Memory.{
  MemoryStateStore, ProcessingLock, ProcessingLease, Result, ok, err, lock_ttl, lock_owner, is_held,
  owned_by, save, load, try_acquire_processing, release,
}

-- A call of a method, with `ctx.Err()` and the time.
pub data Request : Type 0 where
  saves : Option GoError → MessageSnapshot → Request
  loads : Option GoError → String → Request
  acquires : Option GoError → (message_id owner : String) → ℤ → ℕ → Request
  releases : Option GoError → ProcessingLease → Request

-- What it returns.
pub data Answer : Type 0 where
  failure : Option GoError → Answer
  found : Result MessageSnapshot → Answer
  claim : Result (Option ProcessingLease) → Answer

pub respond : Request → MemoryStateStore → Answer × MemoryStateStore
respond (saves ended s) store = let (e, store') = save ended s store in (failure e, store')
respond (loads ended id) store = (found (load ended id store), store)
respond (acquires ended id owner ttl now) store =
    let (r, store') = try_acquire_processing ended id owner ttl now store in (claim r, store')
respond (releases ended lease) store =
    let (e, store') = release ended lease store in (failure e, store')

-- The abstract store.
pub record Promise : Type 0 where
  pub snapshot_of : String → Option MessageSnapshot
  pub holder : String → ℕ → Option String

abbrev pub held_by : ℕ → Option ProcessingLock → Option String
held_by t none = none
held_by t (some l) = if ltb t l.expires_at then some l.owner else none

abbrev pub view : MemoryStateStore → Promise
view store = record {
  snapshot_of = λ id. lookup id store.snapshots;
  holder = λ id t. held_by t (lookup id store.locks);
}

-- Where nobody holds it, the message is held by the owner until its time is up.
abbrev pub grant : String → String → ℕ → Promise → Promise
grant id owner expiry p = record p {
  holder = λ j t. if str_eq id j then (if ltb t expiry then some owner else none) else p.holder j t;
}

abbrev pub without : String → Option String → Option String
without owner none = none
without owner (some h) = if str_eq h owner then none else some h

-- The owner does not hold the message any more, at any time; whoever else does stays.
abbrev pub give_up : ProcessingLease → Promise → Promise
give_up lease p = record p {
  holder =
      λ j t. if str_eq lease.message_id j then without lease.owner (p.holder j t) else p.holder j t;
}

abbrev pub claim_promised : String → String → ℕ → Promise → Option String → Answer × Promise
claim_promised id owner expiry p (some h) = (claim (ok none), p)
claim_promised id owner expiry p none =
    (claim (ok (some (record { message_id = id; owner = owner }))), grant id owner expiry p)

abbrev pub found_or : String → Option MessageSnapshot → Result MessageSnapshot
found_or id none = err (state_not_found id)
found_or id (some s) = ok s

-- What the store promises of a call.
pub promised : Request → Promise → Answer × Promise
unfolding trim_space
promised (saves (some e) s) p = (failure (some e), p)
promised (saves none s) p = (
  failure none,
  record p { snapshot_of = λ j. if str_eq s.id j then some s else p.snapshot_of j },
)
promised (loads (some e) id) p = (found (err e), p)
promised (loads none id) p = (found (found_or id (p.snapshot_of id)), p)
promised (acquires (some e) id owner ttl now) p = (claim (err e), p)
promised (acquires none message_id owner ttl now) p =
    let id = trim_space message_id in
    if is_empty id
    then (claim (err id_required), p)
    else claim_promised id (lock_owner owner) (now + lock_ttl ttl) p (p.holder id now)
promised (releases (some e) lease) p = (failure (some e), p)
promised (releases none lease) p = (failure none, give_up lease p)

-- The answers to calls, one after another.
pub answers : List Request → MemoryStateStore → List Answer
answers [] store = []
answers (r ∷ rs) store = let (a, store') = respond r store in a ∷ answers rs store'

pub promised_answers : List Request → Promise → List Answer
promised_answers [] p = []
promised_answers (r ∷ rs) p = let (a, p') = promised r p in a ∷ promised_answers rs p'

-- The call, seen from outside.
abbrev seen : Answer × MemoryStateStore → Answer × Promise
seen (a, store) = (a, view store)

granted_holder :
    (id owner : String) (expiry : ℕ) (locks : Dict ProcessingLock) (j : String) (t : ℕ)
    → held_by t (lookup j (insert id (record { owner = owner; expires_at = expiry }) locks)) ≡ (
        if str_eq id j
        then (if ltb t expiry then some owner else none)
        else held_by t (lookup j locks))
granted_holder id owner expiry locks j t =
    rw (lookup-insert id j (record { owner = owner; expires_at = expiry }) locks)
      (elim (Bool-cases (str_eq id j)) [ inl e ↦ rw e refl | inr e ↦ rw e refl ])

release_holder :
    (lease : ProcessingLease) (locks : Dict ProcessingLock) (j : String) (t : ℕ)
    → held_by t (
        lookup j (
          if owned_by lease.owner (lookup lease.message_id locks)
          then delete lease.message_id locks
          else locks))
      ≡ (if str_eq lease.message_id j
          then without lease.owner (held_by t (lookup j locks))
          else held_by t (lookup j locks))
release_holder lease locks j t = ground (
  arith,
  lookup-delete lease.message_id j locks,
  eq_iff lease.message_id j,
  eq_iff lease.owner lease.owner,
)

found_lem :
    (id : String) (o : Option MessageSnapshot)
    → (elim o [ none ↦ err (state_not_found id) | some s ↦ ok s ]) ≡ found_or id o
found_lem id none = refl
found_lem id (some s) = refl

grant-view :
    (id owner : String) (expiry : ℕ) (store : MemoryStateStore)
    → view (record store {
      locks = insert id (record { owner = owner; expires_at = expiry }) store.locks;
    })
      ≡ grant id owner expiry (view store)
grant-view id owner expiry store =
    ap (λ (f : String → ℕ → Option String). record (view store) { holder = f })
      (fun_ext (λ j. fun_ext (λ t. granted_holder id owner expiry store.locks j t)))

release-view :
    (lease : ProcessingLease) (store : MemoryStateStore)
    → view (
        if owned_by lease.owner (lookup lease.message_id store.locks)
        then record store { locks = delete lease.message_id store.locks }
        else store)
      ≡ give_up lease (view store)
release-view lease store =
    if_rule (λ (q : MemoryStateStore). view q ≡ give_up lease (view store))
      (owned_by lease.owner (lookup lease.message_id store.locks))
      (record store { locks = delete lease.message_id store.locks }) store
      (λ e.
        ap (λ (f : String → ℕ → Option String). record (view store) { holder = f })
          (fun_ext (λ j. fun_ext (λ t. rw e at (release_holder lease store.locks j t)))))
      (λ e.
        ap (λ (f : String → ℕ → Option String). record (view store) { holder = f })
          (fun_ext (λ j. fun_ext (λ t. rw e at (release_holder lease store.locks j t)))))

-- A claim by what the lock says.
acquire_view :
    (id owner : String) (ttl now : ℕ) (store : MemoryStateStore) (o : Option ProcessingLock)
    → (let taken : Result (Option ProcessingLease) × MemoryStateStore = (
      ok (some (record { message_id = id; owner = owner })),
      record store {
        locks = insert id (record { owner = owner; expires_at = now + ttl }) store.locks;
      },
    ) in
        let r = if is_held now o then (ok none, store) else taken in seen (claim r.0, r.1))
      ≡ claim_promised id owner (now + ttl) (view store) (held_by now o)
acquire_view id owner ttl now store none =
    ap (λ (p : Promise). (claim (ok (some (record { message_id = id; owner = owner }))), p))
      (grant-view id owner (now + ttl) store)
acquire_view id owner ttl now store (some l) = elim (Bool-cases (ltb now l.expires_at)) [
  | inl held ↦ rw held refl
  | inr gone ↦ rw gone (
      ap (λ (p : Promise). (claim (ok (some (record { message_id = id; owner = owner }))), p))
        (grant-view id owner (now + ttl) store))
]

respond-promised :
    (r : Request) (store : MemoryStateStore) → seen (respond r store) ≡ promised r (view store)
unfolding respond promised save load release try_acquire_processing
respond-promised (saves (some e) s) store = refl
respond-promised (saves none s) store =
    ap
      (λ (f : String → Option MessageSnapshot).
        (failure none, record (view store) { snapshot_of = f }))
      (fun_ext (λ j. lookup-insert s.id j s store.snapshots))
respond-promised (loads (some e) id) store = refl
respond-promised (loads none id) store =
    ap (λ (r : Result MessageSnapshot). (found r, view store))
      (found_lem id (lookup id store.snapshots))
respond-promised (acquires (some e) id owner ttl now) store = refl
respond-promised (acquires none id owner ttl now) store =
    elim (Bool-cases (is_empty (trim_space id))) [
      | inl e ↦ rw e refl
      | inr e ↦ rw e (
          acquire_view (trim_space id) (lock_owner owner) (lock_ttl ttl) now store
            (lookup (trim_space id) store.locks))
    ]
respond-promised (releases (some e) lease) store = refl
respond-promised (releases none lease) store =
    ap (λ (p : Promise). (failure none, p)) (release-view lease store)

-- Over every sequence of saves, loads, claims and releases, from any state, the store gives the same
-- answers as the abstract one, which has a snapshot or none for each id, and a holder or none for each
-- message and time: locks that have run out, and all else about the representation, never show.
pub answers-promised :
    (rs : List Request) (store : MemoryStateStore)
    → answers rs store ≡ promised_answers rs (view store)
unfolding answers promised_answers
answers-promised [] store = refl
answers-promised (r ∷ rs) store =
    ap (λ (a : List Answer). (respond r store).0 ∷ a) (answers-promised rs (respond r store).1)
    ∙ ap (λ (s : Answer × Promise). s.0 ∷ promised_answers rs s.1) (respond-promised r store)

-- ===== src/Slip/Store/Memory/Snapshots.antt =====
-- Saving, loading and listing.
use routing_slip_pattern.Common.{
  String, List, [], none, some, ◌≡◌, refl, ap, sym, ◌∙◌, ◌++◌, subst, false, str_eq, if◌then◌else◌,
  arith,
}
use routing_slip_pattern.Common.Dict.{Dict, lookup, lookup-insert}
use routing_slip_pattern.Slip.Errors.{GoError}
use routing_slip_pattern.Slip.Snapshot.{MessageSnapshot}
use routing_slip_pattern.Slip.Store.Filter.{SnapshotFilter, is_full, list_from}
use mathlib.Core.List.{append-nil}
use routing_slip_pattern.Slip.Store.Filter.Lists.{
  Passes, In, Lists, list_from-Lists, Selected-sound, Selected-complete, In-append,
}
use routing_slip_pattern.Slip.Store.Memory.{MemoryStateStore, ok, err, save, load, list_snapshots}

-- A load after a save gives the saved snapshot under its id, and under any other id what a load gave
-- before.
pub load-save :
    (s : MessageSnapshot) (id : String) (store : MemoryStateStore)
    → load none id (save none s store).1 ≡ (if str_eq s.id id then ok s else load none id store)
unfolding load save
load-save s id store = ground (arith, lookup-insert s.id id s store.snapshots)

-- A save or a load under an ended context fails with the context's error, and the store stays.
pub save_ended :
    (e : GoError) (s : MessageSnapshot) (store : MemoryStateStore)
    → (save (some e) s store ≡ (some e, store)) × (load (some e) s.id store ≡ err e)
unfolding save load
save_ended e s store = (refl, refl)

-- An empty result is never full.
empty_open : (f : SnapshotFilter) → is_full f [] ≡ false
empty_open f = ground arith

-- The iteration over the map comes to the stored snapshots and no others.
pub record Enumerates (stored : Dict MessageSnapshot) (listed : List MessageSnapshot) : Type 0 where
  pub are_stored : (s : MessageSnapshot) → In s listed → (id : String) × (lookup id stored ≡ some s)
  pub are_listed : (id : String) (s : MessageSnapshot) → lookup id stored ≡ some s → In s listed

-- Whatever is not listed though the result is not full has been seen.
seen_all :
    (seen unseen stored : List MessageSnapshot) (s : MessageSnapshot)
    → stored ≡ seen ++ unseen
    → unseen ≡ []
    → In s stored
    → In s seen
seen_all seen unseen stored s all none_left i =
    subst (In s) (all ∙ ap (λ l. seen ++ l) none_left ∙ append-nil seen) i

-- Where the iteration comes to the stored snapshots and no others, in whatever order, `List` gives
-- those that pass the filter, in that order, of a front of the iteration that is all of it unless the
-- limit is reached: every listed snapshot is stored and passes the filter, that is, agrees with each
-- text that is asked for and was updated between the two times that are given; no more are listed than
-- a positive limit allows; and where the result is not full, every stored snapshot that passes is
-- listed.
pub list_snapshots_sound :
    (f : SnapshotFilter) (order : Dict MessageSnapshot → List MessageSnapshot)
    (store : MemoryStateStore) (out : List MessageSnapshot)
    → Enumerates store.snapshots (order store.snapshots)
    → list_snapshots none f order store ≡ ok out
    → Lists f [] (order store.snapshots) out
      × ((s : MessageSnapshot)
          → In s out
          → Passes f s × ((id : String) × (lookup id store.snapshots ≡ some s)))
      × (is_full f out ≡ false
          → (id : String) (s : MessageSnapshot) → lookup id store.snapshots ≡ some s
          → Passes f s
          → In s out)
unfolding list_snapshots
list_snapshots_sound f order store out each e =
    let l =
      subst (Lists f [] (order store.snapshots)) same
        (list_from-Lists f [] (order store.snapshots) (empty_open f)) in
    (
      l,
      λ s i.
          let (p, j) = Selected-sound f l.seen l.listed s l.selected (subst (In s) l.result_is i) in
          (p, each.are_stored s (subst (In s) (sym l.all) (In-append s l.seen l.unseen j))),
      λ free id s at p. subst (In s) (sym l.result_is) (
          Selected-complete f l.seen l.listed s l.selected
            (seen_all l.seen l.unseen _ s l.all (l.saw_all free) (each.are_listed id s at)) p),
    )
  where
    same : list_from f [] (order store.snapshots) ≡ out
    same = ground arith

-- ===== src/Slip/Store/Filter/Lists.antt =====
-- What `List` of the stores in app/slip/state_store.go gives: a filter as a predicate, and the
-- snapshots it lets through up to the limit.
use routing_slip_pattern.Common.{
  ℕ, zero, suc, ◌==◌, str_eq, leb, ◌||◌, ◌≤◌, ◌<◌, String, true, false, List, [], ◌∷◌, ◌++◌, ◌≡◌,
  refl, ap, ◌∙◌, sym, length, length-append, arith, Bool-cases, inl, inr, eq_iff,
}
use mathlib.Core.List.{append-nil, append_assoc}
use routing_slip_pattern.Common.Int.{pos}
use routing_slip_pattern.Common.Text.{is_empty}
use routing_slip_pattern.Slip.Snapshot.{MessageSnapshot}
use routing_slip_pattern.Slip.Store.Filter.{SnapshotFilter, snapshot_matches, is_full, list_from}

-- A text that the filter asks for is the snapshot's, and the update lies between the two times; what
-- is empty or the zero time asks for nothing.
pub record Passes (f : SnapshotFilter) (s : MessageSnapshot) : Type 0 where
  pub message_id : is_empty f.message_id ≡ false → s.id ≡ f.message_id
  pub correlation_id : is_empty f.correlation_id ≡ false → s.correlation_id ≡ f.correlation_id
  pub trace_id : is_empty f.trace_id ≡ false → s.trace_id ≡ f.trace_id
  pub workflow : is_empty f.workflow ≡ false → s.workflow ≡ f.workflow
  pub status : is_empty f.status ≡ false → s.status ≡ f.status
  pub from : 0 < f.from → f.from ≤ s.updated_at
  pub to : 0 < f.to → s.updated_at ≤ f.to

snapshot_matches-Passes :
    (f : SnapshotFilter) (s : MessageSnapshot) → snapshot_matches s f ≡ true → Passes f s
unfolding snapshot_matches
snapshot_matches-Passes f s h = record {
  message_id = λ e. ground (arith, h, e, eq_iff s.id f.message_id);
  correlation_id = λ e. ground (arith, h, e, eq_iff s.correlation_id f.correlation_id);
  trace_id = λ e. ground (arith, h, e, eq_iff s.trace_id f.trace_id);
  workflow = λ e. ground (arith, h, e, eq_iff s.workflow f.workflow);
  status = λ e. ground (arith, h, e, eq_iff s.status f.status);
  from = λ e. ground (arith, h, e);
  to = λ e. ground (arith, h, e);
}

asked_for :
    (wanted value : String)
    → (is_empty wanted ≡ false → value ≡ wanted)
    → (is_empty wanted || str_eq value wanted) ≡ true
asked_for wanted value h = elim (Bool-cases (is_empty wanted)) [
  | inl e ↦ rw e refl
  | inr e ↦ ground (arith, h e, eq_iff value wanted)
]

bounded : (bound n k : ℕ) → (0 < bound → n ≤ k) → (bound == 0 || leb n k) ≡ true
bounded zero n k h = refl
bounded (suc bound) n k h = ground (arith, h (omega arith))

Passes-snapshot_matches :
    (f : SnapshotFilter) (s : MessageSnapshot) → Passes f s → snapshot_matches s f ≡ true
unfolding snapshot_matches
Passes-snapshot_matches f s h =
    rw
      (
        asked_for f.message_id s.id h.message_id,
        asked_for f.correlation_id s.correlation_id h.correlation_id,
        asked_for f.trace_id s.trace_id h.trace_id,
        asked_for f.workflow s.workflow h.workflow,
        asked_for f.status s.status h.status,
        bounded f.from f.from s.updated_at h.from,
        bounded f.to s.updated_at f.to h.to,
      )
      refl

-- The snapshot is in the list.
pub data In (s : MessageSnapshot) : List MessageSnapshot → Type 0 where
  here : {l : List MessageSnapshot} → In s (s ∷ l)
  there : {t : MessageSnapshot} {l : List MessageSnapshot} → In s l → In s (t ∷ l)

-- Those that pass, in their order, each as often as it stands there.
pub data Selected (f : SnapshotFilter) : List MessageSnapshot → List MessageSnapshot → Type 0 where
  at_end : Selected f [] []
  takes :
      {s : MessageSnapshot} {l out : List MessageSnapshot}
      → Passes f s
      → Selected f l out
      → Selected f (s ∷ l) (s ∷ out)
  leaves :
      {s : MessageSnapshot} {l out : List MessageSnapshot}
      → (Passes f s → ⊥)
      → Selected f l out
      → Selected f (s ∷ l) out

-- `result` is `out` and those that pass of the first snapshots, of all where it is not full.
pub record Lists (f : SnapshotFilter) (out stored result : List MessageSnapshot) : Type 0 where
  pub seen : List MessageSnapshot
  pub unseen : List MessageSnapshot
  pub listed : List MessageSnapshot
  pub all : stored ≡ seen ++ unseen
  pub result_is : result ≡ out ++ listed
  pub selected : Selected f seen listed
  pub saw_all : is_full f result ≡ false → unseen ≡ []
  pub within : (n : ℕ) → f.limit ≡ pos n → 0 < n → length result ≤ n

refused : (f : SnapshotFilter) (s : MessageSnapshot) → snapshot_matches s f ≡ false → Passes f s → ⊥
refused f s miss p = ground (arith, miss, Passes-snapshot_matches f s p)

-- One more leaves a positive limit in force.
room_for_one :
    (f : SnapshotFilter) (out : List MessageSnapshot) (s : MessageSnapshot)
    → is_full f out ≡ false
    → (n : ℕ) → f.limit ≡ pos n
    → 0 < n
    → length (out ++ s ∷ []) ≤ n
room_for_one f out s free n e h = ground (arith, length-append out (s ∷ []))

full_at :
    (f : SnapshotFilter) (out more : List MessageSnapshot) (s : MessageSnapshot)
    → snapshot_matches s f ≡ true
    → is_full f out ≡ false
    → is_full f (out ++ s ∷ []) ≡ true
    → Lists f out (s ∷ more) (out ++ s ∷ [])
full_at f out more s hit room full = record {
  seen = s ∷ [];
  unseen = more;
  listed = s ∷ [];
  all = refl;
  result_is = refl;
  selected = takes (snapshot_matches-Passes f s hit) at_end;
  saw_all = λ free. absurd (ground (arith, full, free));
  within = room_for_one f out s room;
}

taken_on :
    (f : SnapshotFilter) (out more result : List MessageSnapshot) (s : MessageSnapshot)
    → snapshot_matches s f ≡ true
    → Lists f (out ++ s ∷ []) more result
    → Lists f out (s ∷ more) result
taken_on f out more result s hit l = record {
  seen = s ∷ l.seen;
  unseen = l.unseen;
  listed = s ∷ l.listed;
  all = ap (λ x. s ∷ x) l.all;
  result_is = l.result_is ∙ append_assoc out (s ∷ []) l.listed;
  selected = takes (snapshot_matches-Passes f s hit) l.selected;
  saw_all = l.saw_all;
  within = l.within;
}

left_out :
    (f : SnapshotFilter) (out more result : List MessageSnapshot) (s : MessageSnapshot)
    → snapshot_matches s f ≡ false
    → Lists f out more result
    → Lists f out (s ∷ more) result
left_out f out more result s miss l = record {
  seen = s ∷ l.seen;
  unseen = l.unseen;
  listed = l.listed;
  all = ap (λ x. s ∷ x) l.all;
  result_is = l.result_is;
  selected = leaves (refused f s miss) l.selected;
  saw_all = l.saw_all;
  within = l.within;
}

pub list_from-Lists :
    (f : SnapshotFilter) (out stored : List MessageSnapshot)
    → is_full f out ≡ false
    → Lists f out stored (list_from f out stored)
unfolding list_from
list_from-Lists f out [] free = record {
  seen = [];
  unseen = [];
  listed = [];
  all = refl;
  result_is = sym (append-nil out);
  selected = at_end;
  saw_all = λ _. refl;
  within = λ n e h. ground arith;
}
list_from-Lists f out (s ∷ more) free = elim (Bool-cases (snapshot_matches s f)) [
  | inr miss ↦ rw (miss, list_from) (left_out f out more _ s miss (list_from-Lists f out more free))
  | inl hit ↦ elim (Bool-cases (is_full f (out ++ s ∷ []))) [
    | inl full ↦ rw (hit, full, list_from) (full_at f out more s hit free full)
    | inr room ↦
        rw (hit, room, list_from)
          (taken_on f out more _ s hit (list_from-Lists f (out ++ s ∷ []) more room))
  ]
]

-- What is listed passes, and was there.
pub Selected-sound :
    (f : SnapshotFilter) (l out : List MessageSnapshot) (s : MessageSnapshot)
    → Selected f l out
    → In s out
    → Passes f s × In s l
Selected-sound f l out s at_end i = elim i [ ]
Selected-sound f (_ ∷ l) (_ ∷ out) s (takes p r) here = (p, here)
Selected-sound f (t ∷ l) (_ ∷ out) s (takes p r) (there i) =
    let (q, j) = Selected-sound f l out s r i in (q, there j)
Selected-sound f (t ∷ l) out s (leaves n r) i =
    let (q, j) = Selected-sound f l out s r i in (q, there j)

-- What was there and passes is listed.
pub Selected-complete :
    (f : SnapshotFilter) (l out : List MessageSnapshot) (s : MessageSnapshot)
    → Selected f l out
    → In s l
    → Passes f s
    → In s out
Selected-complete f l out s at_end i h = elim i [ ]
Selected-complete f (_ ∷ l) (_ ∷ out) s (takes p r) here h = here
Selected-complete f (t ∷ l) (_ ∷ out) s (takes p r) (there i) h =
    there (Selected-complete f l out s r i h)
Selected-complete f (_ ∷ l) out s (leaves n r) here h = absurd (n h)
Selected-complete f (t ∷ l) out s (leaves n r) (there i) h = Selected-complete f l out s r i h

pub In-append : (s : MessageSnapshot) (l m : List MessageSnapshot) → In s l → In s (l ++ m)
In-append s [] m i = elim i [ ]
In-append s (_ ∷ l) m here = here
In-append s (t ∷ l) m (there i) = there (In-append s l m i)

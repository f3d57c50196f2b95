-- ===== src/Ledger/Committed.antt =====
-- A write that succeeds with a receipt adds the receipt; one that fails changes nothing.
use yeu_xharness.Base.{
  not, ◌≡◌, refl, sym, ap, subst, inl, inr, List, [], ◌∷◌, Option, none, some, Str, str_ord, bytes,
  nat_ord, ==_iff, arith, Bool-cases,
}
use yeu_xharness.Base.Map.{is_some}
use yeu_xharness.Base.Results.{
  ◌>>=◌, ok, err, ok_or, bind-eq_ok, ok-injective, require-eq_ok, seq-eq_ok,
}
use yeu_xharness.Ledger.Types.{
  NewLedgerEvent, CommandReceipt, NewCommandReceipt, CommandAppendResult, CommandBatchAppendResult,
}
use yeu_xharness.Ledger.Errors.{panicked}
use yeu_xharness.Ledger.Serde.{Serde}
use yeu_xharness.Ledger.Store.{
  Ledger, Outcome, get_event_by_id, find_receipt, insert_command_receipt, stored, transact,
  next_sqlite_sequence, insert_event, max_seq, max_append_order,
}
use yeu_xharness.Ledger.Append.{sequenced, thread_scope, global_scope, append_all}
use yeu_xharness.Ledger.Receipts.{once, same_command, append_one_new, append_batch_new, preflight}
use yeu_xharness.Ledger.Growth.{Grows, stays, Grows-trans, next-eq_ok, insert_event-Grows}
use yeu_xharness.Ledger.Writes.{Extends, append_all-Extends}

-- Receipts were added, each under a new command id.
pub data Kept (receipts : List CommandReceipt) : List CommandReceipt → Type 0 where
  keeps : Kept receipts receipts
  records :
      {later : List CommandReceipt} (r : CommandReceipt)
      → Kept receipts later
      → find_receipt r.command_id later ≡ none
      → Kept receipts (r ∷ later)

pub Kept-trans : {a b c : List CommandReceipt} → Kept a b → Kept b c → Kept a c
Kept-trans k keeps = k
Kept-trans k (records r h new) = records r (Kept-trans k h) new

-- A receipt that was found is found later too.
pub Kept-finds :
    {a b : List CommandReceipt} (id : Str) (r : CommandReceipt)
    → Kept a b
    → find_receipt id a ≡ some r
    → find_receipt id b ≡ some r
unfolding find_receipt
Kept-finds id r keeps found = found
Kept-finds id r (records s k new) found =
    let earlier = Kept-finds id r k found in ground (arith, ==_iff s.command_id id)

-- What any write does to the ledger: rows and receipts are added, none is changed.
abbrev pub Develops : Ledger → Ledger → Type 0
Develops l l' = Grows l.rows l'.rows × Kept l.receipts l'.receipts

pub Develops-refl : (l : Ledger) → Develops l l
Develops-refl l = (stays, keeps)

pub Develops-trans : {a b c : Ledger} → Develops a b → Develops b c → Develops a c
Develops-trans (g, k) (h, n) = (Grows-trans g h, Kept-trans k n)

pub Extends-Develops : (l l' : Ledger) → Extends l l' → Develops l l'
Extends-Develops l l' (g, same_receipts) = (g, subst (Kept l.receipts) (sym same_receipts) keeps)

-- A receipt that was inserted is new, and stands in front.
pub insert_command_receipt-eq_ok :
    (serde : Serde) (l : Ledger) (receipt : NewCommandReceipt) (l' : Ledger) (kept : CommandReceipt)
    → insert_command_receipt serde l receipt ≡ ok (l', kept)
    → (find_receipt receipt.command_id l.receipts ≡ none)
      × (record l { receipts = stored receipt ∷ l.receipts } ≡ l')
      × (stored receipt ≡ kept)
unfolding insert_command_receipt
insert_command_receipt-eq_ok serde l receipt l' kept h = ground arith

pub insert_command_receipt-Develops :
    (serde : Serde) (l : Ledger) (receipt : NewCommandReceipt) (l' : Ledger) (kept : CommandReceipt)
    → insert_command_receipt serde l receipt ≡ ok (l', kept)
    → Develops l l'
insert_command_receipt-Develops serde l receipt l' kept h =
    let (new, inserted, same) = insert_command_receipt-eq_ok serde l receipt l' kept h in
    subst (Develops l) inserted (stays, records (stored receipt) keeps new)

-- A transaction develops the ledger, if what it commits does.
pub transact-Develops :
    {A : Type 0} (l : Ledger) (m : Outcome (Ledger × A))
    → ((l' : Ledger) (a : A) → m ≡ ok (l', a) → Develops l l')
    → Develops l (transact l m).0
unfolding transact
transact-Develops l (ok (l', a)) d = d l' a refl
transact-Develops l (err e) d = Develops-refl l

-- A transaction that succeeds has the outcome of its body.
pub transact-eq_ok :
    {A : Type 0} (l : Ledger) (m : Outcome (Ledger × A)) (l' : Ledger) (a : A)
    → transact l m ≡ (l', ok a)
    → m ≡ ok (l', a)
unfolding transact
transact-eq_ok l (ok (l1, b)) l' a h = ground arith
transact-eq_ok l (err e) l' a h = ground arith

-- A transaction that succeeds committed what its body did.
pub transact-committed :
    {A : Type 0} (l : Ledger) (m : Outcome (Ledger × A)) (a : A)
    → (transact l m).1 ≡ ok a
    → m ≡ ok ((transact l m).0, a)
unfolding transact
transact-committed l (ok (l', b)) a h = ap (λ c. ok (l', c)) (ok-injective b a h)
transact-committed l (err e) a h = ground arith

-- A write of a command develops the ledger, if the new write does.
once-Develops :
    {A : Type 0} (l : Ledger) (receipt : NewCommandReceipt) (replayed : CommandReceipt → A)
    (write : Outcome (Ledger × A)) (found : Option CommandReceipt)
    → ((l' : Ledger) (a : A) → write ≡ ok (l', a) → Develops l l')
    → (l' : Ledger) (a : A) → once l receipt replayed write found ≡ ok (l', a)
    → Develops l l'
unfolding once
once-Develops l receipt replayed write none d l' a h = d l' a h
once-Develops l receipt replayed write (some existing) d l' a h =
    elim (Bool-cases (same_command existing receipt)) [
      | inl same ↦
          subst (λ r. Develops l r.0) (ok-injective (l, replayed existing) (l', a) (rw same at h))
            (Develops-refl l)
      | inr other ↦ absurd (ground arith)
    ]

-- The same with the lookup in front.
pub command-Develops :
    {A : Type 0} (l : Ledger) (receipt : NewCommandReceipt) (replayed : CommandReceipt → A)
    (write : Outcome (Ledger × A)) (looked_up : Outcome (Option CommandReceipt))
    → ((l' : Ledger) (a : A) → write ≡ ok (l', a) → Develops l l')
    → (l' : Ledger) (a : A) → (looked_up >>= once l receipt replayed write) ≡ ok (l', a)
    → Develops l l'
command-Develops l receipt replayed write looked_up d l' a h =
    let (found, looked, h1) = bind-eq_ok looked_up _ _ h in
    once-Develops l receipt replayed write found d l' a h1

pub append_one_new-Develops :
    (serde : Serde) (l : Ledger) (i : NewLedgerEvent) (receipt : NewCommandReceipt) (l' : Ledger)
    (a : CommandAppendResult)
    → append_one_new serde l i receipt ≡ ok (l', a)
    → Develops l l'
unfolding append_one_new
append_one_new-Develops serde l i receipt l' a h =
    let (existing, looked, h0) = bind-eq_ok (get_event_by_id serde i.event_id l.rows) _ _ h in
    let (new, h1) = require-eq_ok (not (is_some existing)) _ _ h0 in
    let (seq, n, h2) =
      bind-eq_ok (next_sqlite_sequence (max_seq i.thread_id l.rows) (thread_scope i.thread_id)) _ _
        h1 in
    let (order, o, h3) =
      bind-eq_ok (next_sqlite_sequence (max_append_order l.rows) global_scope) _ _ h2 in
    let (l1, inserted, h4) = bind-eq_ok (insert_event serde l (sequenced i seq) order) _ _ h3 in
    let ((l2, kept), recorded, h5) = bind-eq_ok (insert_command_receipt serde l1 receipt) _ _ h4 in
    let (read, reading, h6) = bind-eq_ok (get_event_by_id serde i.event_id l2.rows) _ _ h5 in
    let (event, found, h7) =
      bind-eq_ok (ok_or read (panicked (bytes "inserted event exists"))) _ _ h6 in
    subst (λ r. Develops l r.0) (ok-injective _ _ h7)
      (Develops-trans
        (Extends-Develops l l1 (
          insert_event-Grows serde l (sequenced i seq) order l1 inserted (next-eq_ok _ _ seq n)
            (next-eq_ok _ _ order o)))
        (insert_command_receipt-Develops serde l1 receipt l2 kept recorded))

pub append_batch_new-Develops :
    (serde : Serde) (l : Ledger) (inputs : List NewLedgerEvent) (receipt : NewCommandReceipt)
    (l' : Ledger) (a : CommandBatchAppendResult)
    → append_batch_new serde l inputs receipt ≡ ok (l', a)
    → Develops l l'
unfolding append_batch_new
append_batch_new-Develops serde l inputs receipt l' a h =
    let (given, h1) = require-eq_ok _ _ _ h in
    let (new, h2) = seq-eq_ok (preflight serde l.rows [] inputs) _ h1 in
    let ((l1, events), appended, h3) = bind-eq_ok (append_all serde l inputs) _ _ h2 in
    let ((l2, kept), recorded, h4) = bind-eq_ok (insert_command_receipt serde l1 receipt) _ _ h3 in
    subst (λ r. Develops l r.0) (ok-injective _ _ h4)
      (Develops-trans (Extends-Develops l l1 (append_all-Extends serde l inputs l1 events appended))
        (insert_command_receipt-Develops serde l1 receipt l2 kept recorded))

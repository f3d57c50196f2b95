-- ===== src/Ledger/Threads.antt =====
-- The events of a thread, as the queries return them.
use yeu_xharness.Base.{
  subst, ℕ, zero, suc, ◌+◌, ◌^◌, ◌≤◌, ◌<◌, true, ◌≡◌, refl, sym, ap, ◌∙◌, List, [], ◌∷◌, ◌++◌,
  arith, inl, inr, Str, str_ord, nat_ord, ◌==◌, ==_iff, length, leb, ltb, Bool-cases, if◌then◌else◌,
}
use yeu_xharness.Base.Results.{ok, ◌>>=◌, ◌>>◌, bind-eq_ok, ok-injective, Result-cases}
use yeu_xharness.Ledger.Types.{LedgerEvent}
use yeu_xharness.Ledger.Store.{row_to_event, Ledger, Row, i64_max, max_seq, sql_integer}
use yeu_xharness.Ledger.Read.{
  read_all, order_by, select_after, take, succ_saturating, validate_sequence, replay, replay_page,
}
use yeu_xharness.Ledger.Growth.{IsWellFormed}
use yeu_xharness.Ledger.Serde.{Serde}
use yeu_xharness.Ledger.Journal.{Write, written, written-IsWellFormed}
use yeu_xharness.Ledger.Numbered.{
  IsNumbered, IsNumbered-snoc, IsNumbered-drop, IsNumbered-take, place-last, drop, drop-all,
  drop-snoc, length-drop-le, length-snoc, drop-short, take-short, take-nothing,
}

-- The events of the thread in the order in which they were stored.
unfoldable pub history : Str → List Row → List LedgerEvent
history thread [] = []
history thread (r ∷ rows) =
    if r.event.thread_id == thread
    then history thread rows ++ (r.event ∷ [])
    else history thread rows

-- The largest number of a thread counts its events, and they are numbered from 1.
pub history-IsNumbered :
    (thread : Str) (rows : List Row)
    → IsWellFormed rows
    → (max_seq thread rows ≡ length (history thread rows))
      × IsNumbered (λ e. e.seq) 1 (history thread rows)
      × (length (history thread rows) ≤ i64_max)
unfolding history max_seq
history-IsNumbered thread [] w = (refl, tt, omega arith)
history-IsNumbered thread (r ∷ rows) (n, w) =
    let (count, numbered, fits) = history-IsNumbered thread rows w in
    elim (Bool-cases (r.event.thread_id == thread)) [
      | inl here ↦
          let same : r.event.thread_id ≡ thread = ground (arith, ==_iff r.event.thread_id thread) in
          let next : r.event.seq ≡ 1 + length (history thread rows) =
            ground (arith, n.next_seq, ap (λ t. max_seq t rows) same) in
          rw here (
            ground (arith, length-snoc (history thread rows) r.event),
            IsNumbered-snoc (λ e. e.seq) 1 (history thread rows) r.event numbered next,
            ground (arith, length-snoc (history thread rows) r.event, n.seq_fits),
          )
      | inr elsewhere ↦ rw elsewhere (count, numbered, fits)
    ]

-- A query returns the history past the number.
pub select-drop :
    (thread : Str) (after : ℕ) (rows : List Row)
    → IsWellFormed rows
    → order_by (λ (e : LedgerEvent). e.seq) (select_after thread after rows)
      ≡ drop after (history thread rows)
unfolding history select_after order_by
select-drop thread after [] w = sym (drop-all after [] (omega arith))
select-drop thread after (r ∷ rows) (n, w) =
    let (count, numbered, fits) = history-IsNumbered thread rows w in
    let earlier = select-drop thread after rows w in
    elim (Bool-cases (r.event.thread_id == thread)) [
      | inr elsewhere ↦ rw elsewhere earlier
      | inl here ↦
          let same : r.event.thread_id ≡ thread = ground (arith, ==_iff r.event.thread_id thread) in
          let next : r.event.seq ≡ 1 + length (history thread rows) =
            ground (arith, n.next_seq, ap (λ t. max_seq t rows) same) in
          elim (Bool-cases (ltb after r.event.seq)) [
            | inl past ↦
                let within : after ≤ length (history thread rows) = ground arith in
                rw (here, past, earlier, drop-snoc after (history thread rows) r.event within)
                  (place-last (λ e. e.seq) (1 + after) (drop after (history thread rows)) r.event
                    (IsNumbered-drop (λ e. e.seq) after 1 (history thread rows) numbered)
                    (omega (arith, length-drop-le after (history thread rows) within)))
            | inr before ↦
                let beyond : length (history thread rows) < after = ground arith in
                rw (here, before, earlier)
                  (drop-all after (history thread rows) (omega arith)
                    ∙ sym (
                        drop-all after (history thread rows ++ (r.event ∷ []))
                          (omega (arith, length-snoc (history thread rows) r.event))))
          ]
    ]

-- Numbered events pass the check of the sequence.
pub validate_sequence-IsNumbered :
    (thread : Str) (first : ℕ) (events : List LedgerEvent)
    → IsNumbered (λ (e : LedgerEvent). e.seq) first events
    → first + length events < 2 ^ 64
    → validate_sequence thread first events ≡ ok tt
unfolding validate_sequence succ_saturating
validate_sequence-IsNumbered thread first [] n bound = refl
validate_sequence-IsNumbered thread first (e ∷ events) (here, n) bound =
    let rest = validate_sequence-IsNumbered thread (first + 1) events n (omega arith) in
    ground (arith, ==_iff e.seq first)

validate_sequence-after :
    (thread : Str) (after : ℕ) (events : List LedgerEvent)
    → IsNumbered (λ (e : LedgerEvent). e.seq) (1 + after) events
    → length events ≤ i64_max
    → after ≤ i64_max
    → validate_sequence thread (succ_saturating after) events ≡ ok tt
unfolding succ_saturating
validate_sequence-after thread after events n fits bound =
    let next : succ_saturating after ≡ 1 + after = ground arith in
    rw next (validate_sequence-IsNumbered thread (1 + after) events n (omega arith))

row_to_event-seq :
    (serde : Serde) (e read : LedgerEvent) → row_to_event serde e ≡ ok read → read.seq ≡ e.seq
unfolding row_to_event
row_to_event-seq serde e read h = ground arith

-- Reading keeps the numbers.
read_all-IsNumbered :
    (serde : Serde) (first : ℕ) (rows events : List LedgerEvent)
    → IsNumbered (λ (e : LedgerEvent). e.seq) first rows
    → read_all serde rows ≡ ok events
    → IsNumbered (λ (e : LedgerEvent). e.seq) first events × (length events ≡ length rows)
unfolding read_all row_to_event
read_all-IsNumbered serde first [] events n h =
    subst (λ es. IsNumbered (λ (e : LedgerEvent). e.seq) first es × (length es ≡ 0))
      (ok-injective [] events h) (tt, refl)
read_all-IsNumbered serde first (e ∷ rows) events (here, n) h =
    let (event, read, h1) = bind-eq_ok (row_to_event serde e) _ _ h in
    let (later, reads, h2) = bind-eq_ok (read_all serde rows) _ _ h1 in
    let (numbered, count) = read_all-IsNumbered serde (first + 1) rows later n reads in
    let same : event.seq ≡ e.seq = row_to_event-seq serde e event read in
    subst (λ es. IsNumbered (λ (x : LedgerEvent). x.seq) first es × (length es ≡ suc (length rows)))
      (ok-injective (event ∷ later) events h2) ((same ∙ here, numbered), ap (λ k. suc k) count)

-- Numbered rows that are read pass the check of the sequence.
read-validated :
    (serde : Serde) (thread : Str) (after : ℕ) (rows : List LedgerEvent)
    → IsNumbered (λ (e : LedgerEvent). e.seq) (1 + after) rows
    → length rows ≤ i64_max
    → after ≤ i64_max
    → (read_all serde rows
        >>= (λ events. validate_sequence thread (succ_saturating after) events >> ok events))
      ≡ read_all serde rows
read-validated serde thread after rows n fits bound = elim (Result-cases (read_all serde rows)) [
  | inl (events, read) ↦
      let (numbered, count) = read_all-IsNumbered serde (1 + after) rows events n read in
      let valid =
        validate_sequence-after thread after events numbered (omega (arith, count)) bound in
      rw (read, valid) refl
  | inr (x, failed) ↦ rw failed refl
]

replay-drop :
    (serde : Serde) (l : Ledger) (thread : Str) (after : ℕ)
    → IsWellFormed l.rows
    → after ≤ i64_max
    → replay serde l thread after ≡ read_all serde (drop after (history thread l.rows))
unfolding replay sql_integer
replay-drop serde l thread after w bound =
    let (count, numbered, fits) = history-IsNumbered thread l.rows w in
    let small : leb after i64_max ≡ true = ground arith in
    rw (small, select-drop thread after l.rows w)
      (read-validated serde thread after (drop after (history thread l.rows))
        (IsNumbered-drop (λ e. e.seq) after 1 (history thread l.rows) numbered)
        (omega (arith, drop-short after (history thread l.rows))) bound)

replay_page-take :
    (serde : Serde) (l : Ledger) (thread : Str) (after limit : ℕ)
    → IsWellFormed l.rows
    → after ≤ i64_max
    → limit ≤ i64_max
    → replay_page serde l thread after limit
      ≡ read_all serde (take limit (drop after (history thread l.rows)))
unfolding replay_page sql_integer read_all
replay_page-take serde l thread after zero w bound small =
    ap (read_all serde) (sym (take-nothing (drop after (history thread l.rows))))
replay_page-take serde l thread after (suc n) w bound small =
    let (count, numbered, fits) = history-IsNumbered thread l.rows w in
    let events = drop after (history thread l.rows) in
    let small_after : leb after i64_max ≡ true = ground arith in
    let small_limit : leb (suc n) i64_max ≡ true = ground arith in
    rw (small_after, small_limit, select-drop thread after l.rows w)
      (read-validated serde thread after (take (suc n) events)
        (IsNumbered-take (λ e. e.seq) (suc n) (1 + after) events
          (IsNumbered-drop (λ e. e.seq) after 1 (history thread l.rows) numbered))
        (omega (arith, drop-short after (history thread l.rows), take-short (suc n) events)) bound)

module _ (serde : Serde) where
  -- After any calls on a new ledger, the rows of a thread, in the order in which they were stored, are
  -- numbered 1, 2 and so on. `replay` after a number (at most `i64::MAX`) gives all of them but the
  -- first so many, and `replay_page` the first ones of those, as many as the limit (at most
  -- `i64::MAX`) lets through: both as the rows are read back, and with the first error of reading
  -- one of these rows if there is one. They fail in no other way.
  pub replay_complete :
      (writes : List Write) (thread : Str) (after limit : ℕ)
      → after ≤ i64_max
      → limit ≤ i64_max
      → IsNumbered (λ (e : LedgerEvent). e.seq) 1 (history thread (written serde writes).rows)
        × (replay serde (written serde writes) thread after
            ≡ read_all serde (drop after (history thread (written serde writes).rows)))
        × (replay_page serde (written serde writes) thread after limit
            ≡ read_all serde (take limit (drop after (history thread (written serde writes).rows))))
  replay_complete writes thread after limit bound small =
      let w = written-IsWellFormed serde writes in
      let (count, numbered, fits) = history-IsNumbered thread (written serde writes).rows w in
      (
        numbered,
        replay-drop serde (written serde writes) thread after w bound,
        replay_page-take serde (written serde writes) thread after limit w bound small,
      )

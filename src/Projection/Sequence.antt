-- ===== src/Projection/Sequence.antt =====
-- The numbering of events: ids are distinct, and each thread counts from one without a gap.
use yeu_xharness.Base.{
  ℕ, suc, ◌+◌, ◌^◌, ◌<◌, Bool, false, ◌||◌, ◌≡◌, refl, ◌∙◌, ap, List, [], ◌∷◌, ◌++◌, Str, arith,
  nat_ord, ◌==◌, any, length, if◌then◌else◌,
}
use yeu_xharness.Base.Map.{insert, get-insert, get-nil}
use yeu_xharness.Base.Set
use yeu_xharness.Base.Results.{Result, ok}
use yeu_xharness.Protocol.Ids.{EventId, ThreadId}
use yeu_xharness.Protocol.Tool.{EffectSet}
use yeu_xharness.Protocol.Event.{EventEnvelope}
use yeu_xharness.Projection.State.{Projection, empty}
use yeu_xharness.Projection.Apply.{apply, record_event, replay, replay_from, last_seq}
use yeu_xharness.Projection.Frames.{seen_kept, seqs_kept}
use yeu_xharness.Projection.Accepted.{
  Accepted, apply-parts, Accepted-fresh, replay-parts, replay-append,
}

-- The events of a thread.
unfoldable pub count : ThreadId → List EventEnvelope → ℕ
count thread [] = 0
count thread (e ∷ events) =
    let rest = count thread events in if e.thread_id == thread then suc rest else rest

-- Whether an id stands among the events.
abbrev pub has_id : EventId → List EventEnvelope → Bool
has_id id = any (λ e. e.event_id == id)

count-le :
    (thread : ThreadId) (events : List EventEnvelope) → count thread events < suc (length events)
unfolding count
count-le thread [] = omega arith
count-le thread (e ∷ events) = ground (arith, count-le thread events)

module _ (d : EffectSet → Result Str Str) where
  Accepted-seen :
      (p : Projection) (e : EventEnvelope) (q : Projection)
      → Accepted d p e q
      → q.seen_events ≡ Set.insert e.event_id p.seen_events
  unfolding record_event
  Accepted-seen p e q h =
      let (passed, done, last) = apply-parts d p e q h in
      ap (λ r. r.seen_events) last ∙ ap (Set.insert e.event_id) (seen_kept d p e e.event)

  Accepted-last :
      (p : Projection) (e : EventEnvelope) (q : Projection) (thread : ThreadId)
      → Accepted d p e q
      → last_seq q thread ≡ (if e.thread_id == thread then e.seq else last_seq p thread)
  unfolding record_event
  Accepted-last p e q thread h =
      let (passed, done, last) = apply-parts d p e q h in
      let seqs : q.last_seq_by_thread ≡ insert e.thread_id e.seq p.last_seq_by_thread =
        ap (λ r. r.last_seq_by_thread) last
        ∙ ap (insert e.thread_id e.seq) (seqs_kept d p e e.event) in
      ground (arith, seqs, get-insert thread e.thread_id e.seq p.last_seq_by_thread)

  -- The last number of a thread counts its events, while the numbers fit a `u64`.
  last_seq-replay :
      (p : Projection) (events : List EventEnvelope) (q : Projection) (thread : ThreadId)
      → last_seq p thread + length events < 2 ^ 64
      → replay_from d p events ≡ ok q
      → last_seq q thread ≡ last_seq p thread + count thread events
  unfolding replay_from count
  last_seq-replay p [] q thread fits h = ground arith
  last_seq-replay p (e ∷ events) q thread fits h =
      let (first, rest) = replay-parts d p e events q h in
      let next = Accepted-last p e (apply d p e).0 thread first in
      let numbered = (Accepted-fresh d p e (apply d p e).0 first).1 in
      ground (
        arith,
        next,
        numbered,
        last_seq-replay (apply d p e).0 events q thread (ground (arith, next, numbered)) rest,
      )

  has_id-seen :
      (p : Projection) (events : List EventEnvelope) (q : Projection) (id : EventId)
      → replay_from d p events ≡ ok q
      → Set.contains id q.seen_events ≡ (has_id id events || Set.contains id p.seen_events)
  unfolding replay_from
  has_id-seen p [] q id h = ground arith
  has_id-seen p (e ∷ events) q id h =
      let (first, rest) = replay-parts d p e events q h in
      let inserted : Set.contains id (apply d p e).0.seen_events
          ≡ ((e.event_id == id) || Set.contains id p.seen_events) =
        ap (Set.contains id) (Accepted-seen p e (apply d p e).0 first)
        ∙ Set.contains-insert id e.event_id p.seen_events in
      ground (arith, inserted, has_id-seen (apply d p e).0 events q id rest)

  -- In a log that replays, an event has an id that no earlier event has.
  pub replay-new_id :
      (xs ys : List EventEnvelope) (e : EventEnvelope) (q : Projection)
      → replay d (xs ++ (e ∷ ys)) ≡ ok q
      → has_id e.event_id xs ≡ false
  unfolding replay
  replay-new_id xs ys e q h =
      let (r, left, right) = replay-append d empty xs (e ∷ ys) q h in
      let (first, rest) = replay-parts d r e ys q right in
      ground (
        arith,
        (Accepted-fresh d r e (apply d r e).0 first).0,
        has_id-seen empty xs r e.event_id left,
      )

  -- In a log that replays, of fewer than `2 ^ 64` events, an event's number is one more than the
  -- number of earlier events of its thread.
  pub replay-numbered :
      (xs ys : List EventEnvelope) (e : EventEnvelope) (q : Projection)
      → suc (length xs) < 2 ^ 64
      → replay d (xs ++ (e ∷ ys)) ≡ ok q
      → e.seq ≡ count e.thread_id xs + 1
  unfolding replay
  replay-numbered xs ys e q fits h =
      let (r, left, right) = replay-append d empty xs (e ∷ ys) q h in
      let (first, rest) = replay-parts d r e ys q right in
      let start : last_seq empty e.thread_id ≡ 0 = rw get-nil refl in
      let counted = last_seq-replay empty xs r e.thread_id (omega (arith, start, fits)) left in
      let numbered = (Accepted-fresh d r e (apply d r e).0 first).1 in
      omega (arith, start, counted, numbered, count-le e.thread_id xs, fits)

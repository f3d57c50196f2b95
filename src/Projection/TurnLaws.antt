-- ===== src/Projection/TurnLaws.antt =====
-- What replay guarantees of turns.
use yeu_xharness.Base.{
  true, false, ◌≡◌, sym, ◌∙◌, ap, ◌⊎◌, inl, inr, List, [], ◌∷◌, Option, none, some, Str, arith,
  nat_ord,
}
use yeu_xharness.Base.Map.{Map, get, insert, get-insert, get-nil}
use yeu_xharness.Base.Results.{Result, ok}
use yeu_xharness.Protocol.Ids.{DateTime, ThreadId, TurnId}
use yeu_xharness.Protocol.Domain.{Turn, TurnState}
use yeu_xharness.Protocol.Tool.{EffectSet}
use yeu_xharness.Protocol.Event.{EventEnvelope}
use yeu_xharness.Turn.Machine.{can_transition_turn, moved}
use yeu_xharness.Turn.Graph.{terminal_stuck}
use yeu_xharness.Projection.State.{Projection, empty}
use yeu_xharness.Projection.Turns.{is_active, find_active}
use yeu_xharness.Projection.Apply.{replay}
use yeu_xharness.Projection.Accepted.{replay_inv}
use yeu_xharness.Projection.TurnChange.{TurnChange, kept, started, moved_on, accepted-TurnChange}

-- Two active turns of one thread are the same turn.
abbrev pub OneActive : Map TurnId Turn → Type 0
OneActive turns =
    (x y : TurnId) (a b : Turn) (thread : ThreadId)
    → get x turns ≡ some a
    → get y turns ≡ some b
    → is_active thread a ≡ true
    → is_active thread b ≡ true
    → x ≡ y

find_active-none :
    (thread : ThreadId) (turns : Map TurnId Turn) (x : TurnId) (a : Turn)
    → find_active thread turns ≡ none
    → get x turns ≡ some a
    → is_active thread a ≡ false
unfolding find_active get
find_active-none thread [] x a h g = ground arith
find_active-none thread ((id, t) ∷ turns) x a h g =
    ground (arith, find_active-none thread turns x a)

-- Where a map with one entry more finds a value.
entry-cases :
    (x k : TurnId) (v a : Turn) (m : Map TurnId Turn)
    → get x (insert k v m) ≡ some a
    → ((x ≡ k) × (a ≡ v)) ⊎ (get x m ≡ some a)
entry-cases x k v a m h = ground (arith, get-insert x k v m)

active_of_moved :
    (t : Turn) (to : TurnState) (at : DateTime) (reason : Option Str) (thread : ThreadId)
    → can_transition_turn t.state to ≡ true
    → is_active thread (moved t to at reason) ≡ true
    → is_active thread t ≡ true
unfolding moved
active_of_moved t to at reason thread legal h = ground (arith, terminal_stuck t.state to)

started-OneActive :
    (turns : Map TurnId Turn) (t : Turn)
    → find_active t.thread_id turns ≡ none
    → OneActive turns
    → OneActive (insert t.id t turns)
started-OneActive turns t free one x y a b thread gx gy ax ay =
    elim (entry-cases x t.id t a turns gx) [
      | inl (ex, ea) ↦ elim (entry-cases y t.id t b turns gy) [
        | inl (ey, eb) ↦ ex ∙ sym ey
        | inr old ↦ ground (arith, find_active-none t.thread_id turns y b free old)
      ]
      | inr old ↦ elim (entry-cases y t.id t b turns gy) [
        | inl (ey, eb) ↦ ground (arith, find_active-none t.thread_id turns x a free old)
        | inr old' ↦ one x y a b thread old old' ax ay
      ]
    ]

moved-OneActive :
    (turns : Map TurnId Turn) (id : TurnId) (t : Turn) (to : TurnState) (at : DateTime)
    (reason : Option Str)
    → get id turns ≡ some t
    → can_transition_turn t.state to ≡ true
    → OneActive turns
    → OneActive (insert id (moved t to at reason) turns)
moved-OneActive turns id t to at reason g legal one x y a b thread gx gy ax ay =
    elim (entry-cases x id (moved t to at reason) a turns gx) [
      | inl (ex, ea) ↦ elim (entry-cases y id (moved t to at reason) b turns gy) [
        | inl (ey, eb) ↦ ex ∙ sym ey
        | inr old ↦
            ex
            ∙ one id y t b thread g old
                (active_of_moved t to at reason thread legal (ap (is_active thread) (sym ea) ∙ ax))
                ay
      ]
      | inr old ↦ elim (entry-cases y id (moved t to at reason) b turns gy) [
        | inl (ey, eb) ↦
            one x id a t thread old g ax
              (active_of_moved t to at reason thread legal (ap (is_active thread) (sym eb) ∙ ay))
            ∙ sym ey
        | inr old' ↦ one x y a b thread old old' ax ay
      ]
    ]

change-OneActive :
    (before after : Map TurnId Turn) → TurnChange before after → OneActive before → OneActive after
change-OneActive before after (kept e) one = rw e one
change-OneActive before after (started t free fresh accepted e) one =
    rw e (started-OneActive before t free one)
change-OneActive before after (moved_on id t to at reason g legal e) one =
    rw e (moved-OneActive before id t to at reason g legal one)

no_turn : {A : Type 0} (x : TurnId) (a : Turn) → get {V = Turn} x [] ≡ some a → A
no_turn x a h = absurd (cc (get-nil x, h))

module _ (d : EffectSet → Result Str Str) where
  replay-OneActive :
      (events : List EventEnvelope) (q : Projection) → replay d events ≡ ok q → OneActive q.turns
  unfolding replay
  replay-OneActive events q h =
      replay_inv d (λ p. OneActive p.turns)
        (λ p e r accepted one.
          change-OneActive p.turns r.turns (accepted-TurnChange d p e r accepted) one)
        empty events q (λ x y a b thread gx gy ax ay. no_turn x a gx) h

  -- After any successful replay two turns of one thread that have not ended are the same turn.
  pub one_active_turn :
      (events : List EventEnvelope) (q : Projection) (x y : TurnId) (a b : Turn) (thread : ThreadId)
      → replay d events ≡ ok q
      → get x q.turns ≡ some a
      → get y q.turns ≡ some b
      → is_active thread a ≡ true
      → is_active thread b ≡ true
      → x ≡ y
  one_active_turn events q x y a b thread h gx gy ax ay =
      replay-OneActive events q h x y a b thread gx gy ax ay

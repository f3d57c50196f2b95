-- ===== src/Projection/Rejected.antt =====
-- What a refused event leaves behind.
use yeu_xharness.Base.{
  Bool, true, false, ◌&&◌, bytes, str_ord, ◌≡◌, refl, sym, ap, ◌⊎◌, inl, inr, Str, arith, nat_ord,
}
use yeu_xharness.Base.Map.{insert, contains_key}
use yeu_xharness.Base.Results.{Result, ok, err}
use yeu_xharness.Protocol.Domain.{Item}
use yeu_xharness.Protocol.Tool.{EffectSet}
use yeu_xharness.Protocol.Event.{
  Event, EventEnvelope, item_added, workspace_opened, workspace_trust_changed, thread_started,
  thread_forked, thread_archived, turn_started, turn_state_changed, turn_steered, model_requested,
  model_stream_event, invocation_proposed, invocation_state_changed, invocation_reconciled,
  job_created, job_state_changed, agent_completed, agent_spawned, runtime_diagnostic,
}
use yeu_xharness.Projection.State.{Projection, ReplayError, duplicate_entity}
use yeu_xharness.Projection.Entities.{
  Outcome, add_item, open_workspace, change_trust, start_thread, archive_thread, request_model,
  stream_model, create_job, change_job, complete_agent,
}
use yeu_xharness.Projection.Turns.{start_turn, change_turn, steer_turn}
use yeu_xharness.Projection.Invocations.{
  propose_invocation, change_invocation, reconcile_invocation,
}
use yeu_xharness.Projection.Apply.{apply, apply_event, check_envelope, checked, recorded, settle}

abbrev is_duplicate_entity : ReplayError → Bool
is_duplicate_entity (duplicate_entity kind id) = true
is_duplicate_entity x = false

abbrev is_item : Event → Bool
is_item (item_added item) = true
is_item ev = false

-- Nothing changed; or an item was refused as a duplicate, and took the place of the one that was
-- stored under its id.
pub data Leftover (p : Projection) (ev : Event) (x : ReplayError) (q : Projection) : Type 0 where
  untouched : (is_item ev && is_duplicate_entity x) ≡ false → q ≡ p → Leftover p ev x q
  overwritten :
      (item : Item)
      → ev ≡ item_added item
      → x ≡ duplicate_entity (bytes "item") item.id
      → contains_key item.id p.items ≡ true
      → q ≡ record p { items = insert item.id item p.items }
      → Leftover p ev x q

settle-err : (p q : Projection) (o : Outcome) (x : ReplayError) → settle p o ≡ (q, err x) → q ≡ p
settle-err p q (ok r) x h = ground arith
settle-err p q (err y) x h = sym (ap (λ t. t.0) h)

item-Leftover :
    (p : Projection) (e : EventEnvelope) (item : Item) (q : Projection) (x : ReplayError)
    → add_item p e item ≡ (q, err x)
    → ((is_duplicate_entity x ≡ false) × (q ≡ p))
      ⊎ ((x ≡ duplicate_entity (bytes "item") item.id)
          × (contains_key item.id p.items ≡ true)
          × (q ≡ record p { items = insert item.id item p.items }))
unfolding add_item
item-Leftover p e item q x h = ground arith

module _ (d : EffectSet → Result Str Str) where
  event-Leftover :
      (p : Projection) (e : EventEnvelope) (ev : Event) (q : Projection) (x : ReplayError)
      → apply_event d p e ev ≡ (q, err x)
      → Leftover p ev x q
  unfolding apply_event
  event-Leftover p e (item_added item) q x h = elim (item-Leftover p e item q x h) [
    | inl (other, same_state) ↦ untouched other same_state
    | inr (duplicate, known, replaced) ↦ overwritten item refl duplicate known replaced
  ]
  event-Leftover p e (agent_spawned spec) q x h = ground arith
  event-Leftover p e (runtime_diagnostic code message recoverable) q x h = ground arith
  event-Leftover p e (workspace_opened w) q x h =
      untouched refl (settle-err p q (open_workspace p w) x h)
  event-Leftover p e (workspace_trust_changed id trust) q x h =
      untouched refl (settle-err p q (change_trust p id trust) x h)
  event-Leftover p e (thread_started t) q x h =
      untouched refl (settle-err p q (start_thread p e t) x h)
  event-Leftover p e (thread_forked t) q x h =
      untouched refl (settle-err p q (start_thread p e t) x h)
  event-Leftover p e (thread_archived id) q x h =
      untouched refl (settle-err p q (archive_thread p e id) x h)
  event-Leftover p e (turn_started t) q x h = untouched refl (settle-err p q (start_turn p e t) x h)
  event-Leftover p e (turn_state_changed id from to reason) q x h =
      untouched refl (settle-err p q (change_turn p e id from to reason) x h)
  event-Leftover p e (turn_steered id message) q x h =
      untouched refl (settle-err p q (steer_turn p id message) x h)
  event-Leftover p e (model_requested id) q x h =
      untouched refl (settle-err p q (request_model p id) x h)
  event-Leftover p e (model_stream_event id event) q x h =
      untouched refl (settle-err p q (stream_model p id event) x h)
  event-Leftover p e (invocation_proposed id call tool version arguments effects digest i) q x h =
      untouched refl (
        settle-err p q (propose_invocation d p e id call tool version arguments effects digest i) x
          h)
  event-Leftover p e (invocation_state_changed id from to reason) q x h =
      untouched refl (settle-err p q (change_invocation p e id from to reason) x h)
  event-Leftover p e (invocation_reconciled id outcome evidence) q x h =
      untouched refl (settle-err p q (reconcile_invocation p e id outcome evidence) x h)
  event-Leftover p e (job_created job) q x h =
      untouched refl (settle-err p q (create_job p job) x h)
  event-Leftover p e (job_state_changed id from to) q x h =
      untouched refl (settle-err p q (change_job p id from to) x h)
  event-Leftover p e (agent_completed result) q x h =
      untouched refl (settle-err p q (complete_agent p result) x h)

  recorded-err :
      (e : EventEnvelope) (r : Projection × Result ReplayError (Unit {0})) (q : Projection)
      (x : ReplayError)
      → recorded e r ≡ (q, err x)
      → r ≡ (q, err x)
  recorded-err e (r, ok done) q x h = ground arith
  recorded-err e (r, err y) q x h = h

  check-no_duplicate :
      (p : Projection) (e : EventEnvelope) (y : ReplayError)
      → check_envelope p e ≡ err y
      → is_duplicate_entity y ≡ false
  unfolding check_envelope
  check-no_duplicate p e y h = ground arith

  no_duplicate :
      (ev : Event) (x : ReplayError)
      → is_duplicate_entity x ≡ false
      → (is_item ev && is_duplicate_entity x) ≡ false
  no_duplicate ev x h = ground arith

  checked-err :
      (p : Projection) (e : EventEnvelope) (c : Result ReplayError (Unit {0})) (q : Projection)
      (x : ReplayError)
      → check_envelope p e ≡ c
      → checked d p e c ≡ (q, err x)
      → Leftover p e.event x q
  checked-err p e (ok done) q x c h =
      event-Leftover p e e.event q x (recorded-err e (apply_event d p e e.event) q x h)
  checked-err p e (err y) q x c h =
      untouched (no_duplicate e.event x (ground (arith, check-no_duplicate p e y c)))
        (sym (ap (λ t. t.0) h))

  -- An event that is refused leaves the projection as it was, with one exception: an item that is
  -- refused as a duplicate has a known id, and takes the place of the stored item although the event
  -- is refused.
  pub rejected-Leftover :
      (p : Projection) (e : EventEnvelope) (q : Projection) (x : ReplayError)
      → apply d p e ≡ (q, err x)
      → Leftover p e.event x q
  unfolding apply
  rejected-Leftover p e q x h = checked-err p e (check_envelope p e) q x refl h

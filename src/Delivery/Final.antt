-- ===== src/Delivery/Final.antt =====
-- When a message is due: `_is_due` of services/alert_delivery_service.py.
use marketpilot.Base.{
  text_key, All, Bool, List, String, [], any, any-select, ap, arith, false, ok, refl, select, true,
  ℕ, ◌&&◌, ◌==◌, ◌||◌, ◌∙◌, ◌∷◌, ◌≡◌,
}
use marketpilot.Delivery.Defs.{OutboxMessage, OutboxEvent}
use marketpilot.Delivery.Store.{Store, insert_event, by_recorded, events_of}
use marketpilot.Delivery.Service.{Orchestrator, is_terminal, is_due, dispatch_loop}

any-insert_event :
    (p : OutboxEvent → Bool) (e : OutboxEvent) (es : List OutboxEvent)
    → any p (insert_event e es) ≡ (p e || any p es)
unfolding insert_event
any-insert_event p e [] = refl
any-insert_event p e (d ∷ ds) = ground (arith, any-insert_event p e ds)

any-by_recorded :
    (p : OutboxEvent → Bool) (es : List OutboxEvent) → any p (by_recorded es) ≡ any p es
unfolding by_recorded
any-by_recorded p [] = refl
any-by_recorded p (e ∷ es) =
    any-insert_event p e (by_recorded es) ∙ ap (λ b. p e || b) (any-by_recorded p es)

not_due :
    (id : String) (s : Store) (now : ℕ)
    → any (λ e. (e.message_id == id) && is_terminal e.kind) s.events ≡ true
    → is_due s id now ≡ false
unfolding is_due events_of
not_due id s now h =
    rw (any-by_recorded (λ e. is_terminal e.kind) (select (λ e. e.message_id == id) s.events))
      (rw (any-select (λ e. is_terminal e.kind) (λ e. e.message_id == id) s.events) (rw h refl))

-- A message with a terminal event in its log (suppressed, disabled, dead-lettered or acknowledged),
-- wherever it stands in the log and whatever follows it, is not due at any time; and the loop of
-- dispatch_due over messages that all have one makes no attempt and changes nothing.
done_is_not_due :
    (o : Orchestrator) (s : Store) (ms : List OutboxMessage) (now : ℕ)
    → All (λ m. any (λ e. (e.message_id == m.message_id) && is_terminal e.kind) s.events ≡ true) ms
    → All (λ m. is_due s m.message_id now ≡ false) ms × (dispatch_loop o ms now s ≡ (ok [], s))
unfolding dispatch_loop
done_is_not_due o s [] now h = (tt, refl)
done_is_not_due o s (m ∷ ms) now (h, hs) =
    let later = not_due m.message_id s now h in
    let rest = done_is_not_due o s ms now hs in ((later, rest.0), rw later rest.1)

-- ===== src/Billing/Webhook/Once.antt =====
-- An event of Stripe's is handled until that succeeds, and not again.
use anzdrop.Base.{
  String, Bool, true, false, ◌≡◌, refl, ap, ◌∙◌, some, List, [], ◌∷◌, exists, same_self, truthy,
  if◌then◌else◌, inl, inr, arith, Bool-cases,
}
use anzdrop.Billing.CardPlan.{BillingState}
use anzdrop.Billing.Webhook.{
  Handled, WebhookState, WebhookReply, success, duplicate_event, server_error, has_processed_event,
  mark_event_as_processed, set_billing, finish_event, process_event_once,
}

-- A delivery of the event: whether D1 stores its mark, and what its handler does, which depends on
-- what Stripe answers by then.
pub record Delivery : Type 0 where
  pub marks : Bool
  pub run : BillingState → Handled

abbrev after_reply :
    WebhookReply → WebhookState × List WebhookReply → WebhookState × List WebhookReply
after_reply reply (s, replies) = (s, reply ∷ replies)

-- The deliveries of one event, one after the other, with the replies.
unfoldable pub deliver_all :
    String → List Delivery → WebhookState → WebhookState × List WebhookReply
deliver_all event_id [] s = (s, [])
deliver_all event_id (d ∷ ds) s =
    let answer = process_event_once d.marks (some event_id) d.run s in
    after_reply answer.1 (deliver_all event_id ds answer.0)

-- What they come to: handlers run until the first whose success is marked; those that fail, or
-- whose mark fails, are answered with an error, and deliveries after the mark do nothing.
abbrev pub all_duplicates : List Delivery → List WebhookReply
all_duplicates [] = []
all_duplicates (d ∷ ds) = duplicate_event ∷ all_duplicates ds

abbrev with_reply :
    WebhookReply → BillingState × List WebhookReply → BillingState × List WebhookReply
with_reply reply (db, replies) = (db, reply ∷ replies)

unfoldable pub until_success : List Delivery → BillingState → BillingState × List WebhookReply
until_success [] db = (db, [])
until_success (d ∷ ds) db =
    let handled : Handled = d.run db in
    let rest = until_success ds handled.0 in
    if handled.1
    then if d.marks then (handled.0, success ∷ all_duplicates ds) else with_reply server_error rest
    else with_reply server_error rest

marked :
    (event_id : String) (s : WebhookState)
    → has_processed_event event_id (mark_event_as_processed event_id s) ≡ true
marked event_id s = elim (Bool-cases (has_processed_event event_id s)) [
  | inl e ↦ rw (e, if◌then◌else◌) e
  | inr e ↦ rw (e, if◌then◌else◌, exists, same_self event_id) refl
]

named_once :
    (marks : Bool) (event_id : String) (run : BillingState → Handled) (s : WebhookState)
    → truthy event_id ≡ true
    → process_event_once marks (some event_id) run s ≡ (
        if has_processed_event event_id s
        then (s, duplicate_event)
        else finish_event marks event_id s (run s.billing))
unfolding process_event_once
named_once marks event_id run s named = ground (arith, named)

-- The tables of billing with the replies.
abbrev pub outcome : WebhookState × List WebhookReply → BillingState × List WebhookReply
outcome (s, replies) = (s.billing, replies)

module _ (event_id : String) (named : truthy event_id ≡ true) where
  after_mark :
      (ds : List Delivery) (s : WebhookState)
      → has_processed_event event_id s ≡ true
      → deliver_all event_id ds s ≡ (s, all_duplicates ds)
  unfolding deliver_all
  after_mark [] s seen = refl
  after_mark (d ∷ ds) s seen =
      let first : process_event_once d.marks (some event_id) d.run s ≡ (s, duplicate_event) =
        named_once d.marks event_id d.run s named ∙ rw seen refl in
      rw first (ap (after_reply duplicate_event) (after_mark ds s seen))

  from_handled :
      (marks : Bool) (ds : List Delivery) (s : WebhookState) (handled : Handled)
      → ((t : WebhookState)
          → has_processed_event event_id t ≡ false
          → outcome (deliver_all event_id ds t) ≡ until_success ds t.billing)
      → has_processed_event event_id s ≡ false
      → outcome (
          after_reply
            (finish_event marks event_id s handled).1
            (deliver_all event_id ds (finish_event marks event_id s handled).0))
        ≡ (if handled.1
            then if marks
              then (handled.0, success ∷ all_duplicates ds)
              else with_reply server_error (until_success ds handled.0)
            else with_reply server_error (until_success ds handled.0))
  from_handled true ds s (db, true) rest fresh =
      ap (λ (x : WebhookState × List WebhookReply). outcome (after_reply success x))
        (after_mark ds (mark_event_as_processed event_id (set_billing db s))
          (marked event_id (set_billing db s)))
  from_handled false ds s (db, true) rest fresh =
      ap (with_reply server_error) (rest (set_billing db s) fresh)
  from_handled marks ds s (db, false) rest fresh =
      ap (with_reply server_error) (rest (set_billing db s) fresh)

  -- An event with an id that is not marked, delivered any number of times, whatever its handlers do
  -- each time and whether or not D1 stores the mark: a handler that fails, or whose mark does, is answered
  -- with an error and the next delivery runs again on what it left; the first success that is marked is the last
  -- run, and the deliveries after it are answered as duplicates and change nothing.
  pub deliver_all-until_success :
      (ds : List Delivery) (s : WebhookState)
      → has_processed_event event_id s ≡ false
      → outcome (deliver_all event_id ds s) ≡ until_success ds s.billing
  unfolding deliver_all until_success
  deliver_all-until_success [] s fresh = refl
  deliver_all-until_success (d ∷ ds) s fresh =
      let first : process_event_once d.marks (some event_id) d.run s
          ≡ finish_event d.marks event_id s (d.run s.billing) =
        named_once d.marks event_id d.run s named ∙ rw fresh refl in
      ap
        (λ (answer : WebhookState × WebhookReply).
          outcome (after_reply answer.1 (deliver_all event_id ds answer.0)))
        first
      ∙ from_handled d.marks ds s (d.run s.billing) (deliver_all-until_success ds) fresh

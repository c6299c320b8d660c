-- ===== src/Billing.antt =====
-- lib/billing and lib/stripe-subscription.ts: how payments decide the plan.
pub mod CardPlan
mod Tests
pub mod Subscription
pub mod Webhook
mod WebhookTests

-- ===== src/Notify.antt =====
-- internal/notification/client.go: the webhook's endpoint and key, its signed request, and the dispatch of
-- an event to all recipients.
pub mod Endpoint
pub mod Webhook

-- ===== src/Notify/Webhook.antt =====
-- internal/notification/client.go: the P-256 keys, `WebhookClient` with its signed request, and `Dispatcher`.
mod Octets
pub mod Client
pub mod Receiver

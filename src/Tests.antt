-- ===== src/Tests.antt =====
-- Concrete runs of the model, and the theorems applied to them.
mod World
mod Owners
mod Mutations
mod Channels
mod Resolution
mod Removals
mod Cursors
mod Lists
mod Fetches
mod Pages
mod Tags
mod Creations
mod Replaces
mod Logs
mod Requests
mod Webhooks
mod Starts

-- ===== src/Tests.antt =====
-- Concrete endpoints, frames and messages, and the theorems at work on them.
mod Data
mod Numbers
mod Queues
mod Messages
mod Credits
mod Requests
mod Resends
mod Sends
mod Relays
mod Links
mod Media
mod Prompt
mod Openings
mod Lives
mod Several

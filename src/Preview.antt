-- ===== src/Preview.antt =====
-- The previews of src/host/preview: their identities, the knob file, the hosts and who may ask.
pub mod App
pub mod Settings
pub mod Knob
pub mod Reading
pub mod Bounds
pub mod Budgets
pub mod Hosts
pub mod Label
pub mod Form
pub mod Resolved
pub mod Ask
pub mod Marks
pub mod Asked

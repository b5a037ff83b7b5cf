-- ===== src/Phases/Frame.antt =====
-- The frame of each phase handler: the phase, the name and the ID of its VM, and the history of calls.
mod Cold
mod Hot
mod Job
pub use Cold.*
pub use Hot.*
pub use Job.*

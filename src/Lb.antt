-- ===== src/Lb.antt =====
-- extensions/gpustack-lb: the LB plugin's two roles and the state that they share.
pub mod State
pub mod Context
pub mod Finisher
pub mod Flags
pub mod Selector
pub mod Store
mod Tests

-- ===== src/Utils.antt =====
-- src/utils, less the fault latch.
pub mod Ring

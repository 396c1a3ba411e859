-- ===== src/Selection.antt =====
-- Clipboard text: src/common/wd_selection.c, src/server/wd_selection_capture.c and
-- src/server/wd_selection_delivery.c.
pub mod Utf8
pub mod Wire
pub mod Capture
pub mod Delivery
mod Tests

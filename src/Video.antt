-- ===== src/Video.antt =====
-- src/VideoCapturer.cpp and VideoCapturer.hpp: frames that come too fast are dropped, the others
-- are converted, scaled to a size that the platform takes, and handed on to WebRTC.
-- Widths and heights are positive `int32_t` values (the C API checks them), timestamps are exact
-- integers. `none` is undefined behaviour in the arithmetic.
pub mod Size
pub mod Capture
pub mod Bounds
pub mod Rate
pub mod Delivery

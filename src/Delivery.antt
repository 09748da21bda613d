-- ===== src/Delivery.antt =====
-- delivery/: the retry executor and the dispatcher.
pub mod Retry
pub mod Templates
pub mod Telegram
pub mod Dispatcher
use lidenal85_blip.Base.{}

-- ===== src/Notifications.antt =====
-- The web app's notifications, apps/web/src/app/core/notifications.
pub mod Types
pub mod Toasts
pub mod Socket
pub mod Store

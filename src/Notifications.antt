-- ===== src/Notifications.antt =====
-- NotificationsService: apps/api/src/notifications/notifications.service.ts.
pub mod Service
pub mod Reminders
pub mod Once
mod Keeps
pub mod OneByOne
pub mod Overdue
mod Tests

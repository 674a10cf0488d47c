-- ===== src/Callbacks.antt =====
-- internal/adapter/telegram/callbackdata.go: the payloads of buttons.
pub mod Scope
pub mod Keyboards
pub mod Permissions
pub mod Masks
pub mod Wizard

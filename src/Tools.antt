-- ===== src/Tools.antt =====
-- The pages under panel/app/(dash)/tools.
pub mod Slack
pub mod Sentry
pub mod Finetune
pub mod Github
pub mod ApiClient
pub mod Swagger
pub mod Tests

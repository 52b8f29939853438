-- ===== src/Storage.antt =====
-- app/services/storage: the providers over the cloud services' HTTP interfaces, and the choice of a
-- provider.
pub mod Http
pub mod Samples
pub mod Token
pub mod Calls
pub mod GoogleDrive
pub mod Dropbox
pub mod Factory

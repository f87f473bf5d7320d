-- ===== src/Tests.antt =====
-- Concrete devices, certificates, records and disks, and the theorems at them.
pub mod Grants
pub mod Meeting
pub mod Agreement
pub mod Toy
pub mod Json
pub mod Devices
pub mod Decodes
pub mod Runs
pub mod Codecs
pub mod Announcements
pub mod Channel
pub mod Trusted

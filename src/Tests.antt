-- ===== src/Tests.antt =====
-- The theorems at concrete inputs.
mod Data
mod Guards
mod Services
mod Posts
mod Authority
mod Threads
mod Reached
mod Staff
mod Sessions
mod Likes
mod Tree
mod Uploads

-- ===== src/Tests.antt =====
-- Runs of the code, and the theorems at concrete data.
mod Pool
mod Requests
mod Reading
mod Answers
mod Versions
mod Made
mod Matches
mod Uploads
mod Threads
mod Bulk
mod Times
mod Objects
mod Reflection
mod Layers
mod Statements
mod Lists
mod Driver
mod Connected
mod Expressions
mod Logs

-- ===== src/FileLock.antt =====
-- owtf/lib/filelock.py: one instance's calls (`Acquire`), and many instances on one lock file
-- (`System`, with mutual exclusion proved in `Exclusion`).
pub mod Acquire
pub mod System
pub mod Exclusion

-- ===== src/Runner.antt =====
-- owtf/plugin/runner.py: which plugins run (`Choice`), what was run (`Registry`), and one run of a
-- plugin from start to saved output (`Run`).
pub mod Choice
pub mod Registry
pub mod Rank
pub mod Run

-- ===== src/Falsify.antt =====
-- src/repoauditor/falsify: the regex witness checker, the bounded challenge loop, the budget of a
-- run and the run over a repository.
pub mod Witness
pub mod Loop
pub mod Verdicts
pub mod Budget
pub mod Fairness
pub mod Deferral
pub mod Run
pub mod Untouched

-- ===== src/Tests.antt =====
-- Runs of the models at concrete inputs, and the theorems applied there.
mod CronTests
mod SchedulerTests
mod VerifierTests
mod WorkerTests
mod ArxivTests
mod PolicyTests
mod RegistryTests
mod CoverageTests
mod StoresTests
mod GithubTests

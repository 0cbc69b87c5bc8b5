-- ===== src/Tests.antt =====
-- Concrete runs of the model: a consumer class, its contexts and sockets, and the theorems at them.
mod Fixtures
mod Wire
mod Sockets
mod Resumes
mod Sessions
mod Registry
mod Origins
mod Journal
mod Lives
mod Checks
mod Deployments
mod Opening

-- ===== src/Adapters.antt =====
-- packages/adapters/src: what the ingestion adapters share, and the analysis passes.
pub mod Merge
pub mod Stitch
pub mod HashId
pub mod Credentials
pub mod Slug
pub mod Regex
pub mod Sanitize
pub mod AccessAnalyzer
pub mod Asff
pub mod PolicyDoc
pub mod Ingress
pub mod Containers
pub mod ResourceAccess
pub mod Policy
pub mod Arn
pub mod Iam
pub mod Dataflow

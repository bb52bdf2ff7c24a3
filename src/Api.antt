-- ===== src/Api.antt =====
-- The objects that the operator reads and writes: the Kubernetes types of which it uses fields, and
-- the types of api/v1alpha1.
mod Meta
mod Shared
mod Specs
mod Statuses
pub use Meta.*
pub use Shared.*
pub use Specs.*
pub use Statuses.*

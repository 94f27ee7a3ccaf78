-- ===== src/Provider.antt =====
-- src/provider.rs: the status names, the rows and the parameters of the storage interface.
mod Status
mod Workflow
mod Steps
mod Requests
pub use Status.*
pub use Workflow.*
pub use Steps.*
pub use Requests.*
unfoldable pub use Status.{is_terminal}
unfoldable pub use Workflow.{new_workflow}
unfoldable pub use Steps.{into_value_result}

-- ===== src/Api.antt =====
-- The API's types and the reading of its conditions: apis/v1alpha1, pkg/helpers.
pub mod Links
pub mod Conditions
pub mod Helpers
pub mod Control
pub mod ProgramTypes

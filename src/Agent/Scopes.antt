-- ===== src/Agent/Scopes.antt =====
-- The two scopes of an application: {ns,cl}_application_program.go of controllers/bpfman-agent.
pub mod Namespace
pub mod Cluster

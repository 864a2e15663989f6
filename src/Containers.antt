-- ===== src/Containers.antt =====
-- The nodes that run in containers of their own: orchestrator/nodes/kubernetesRemoteNode and
-- orchestrator/nodes/dockerComposeRemoteNode, over what the interfaces of Kubernetes and Docker document.
pub mod Bodies
pub mod Docker
pub mod Kubernetes

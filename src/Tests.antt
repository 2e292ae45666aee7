-- ===== src/Tests.antt =====
-- Concrete tables, requests and providers, and the theorems applied to them.
mod Examples
mod Operations
mod Admission
mod Provisioner
mod Planes
mod Kube
mod Credentials
mod Identity
mod Secrets
mod Services
mod Allocations
mod Operator
mod Sizes

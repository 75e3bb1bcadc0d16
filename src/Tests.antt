-- ===== src/Tests.antt =====
-- Runs of the code on small inputs.
mod GateFixture
mod GateCases
mod WireCases
mod RedisCases
mod ProcessCases
mod EndToEndCases
mod ClusterCases
mod ProgramCases
mod GameCases
mod ServiceCases

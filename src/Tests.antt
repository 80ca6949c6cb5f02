-- ===== src/Tests.antt =====
-- Runs of the modelled code on concrete inputs, and the theorems applied to them.
mod Data
mod Lexer
mod Correlation
mod Pooling
mod Wire
mod Collecting
mod Replaying
mod Advice
mod Relaying
mod Losses
mod Staging
mod Values
mod Tuning
mod Comparing
mod Scaling
mod Compiling
mod Authenticating

-- ===== src/Policy.antt =====
-- crates/hakobackend-policy/src/lib.rs: the policy file, from rule strings to decisions.
pub mod Rule
pub mod Parse
pub mod Resolve
pub mod Decide
pub mod Order
pub mod Precedence
pub mod Access
pub mod RuleText
mod Tests

-- ===== src/Router.antt =====
-- core/src/moe/router_predict.cpp and core/src/moe/router_policy.cpp: what the router hook does with
-- scores and weights: the ranking, the lists it speculates from, and the dropping of cold experts.
mod Defs
pub mod Rank
pub mod Ranked
pub mod Lists
pub mod Listed
pub mod Drop
pub mod Dropped
pub mod Applied
pub mod Joined
pub mod Substitute
pub mod Substituted
mod Examples
pub use Defs.*

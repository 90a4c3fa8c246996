-- ===== src/Prelude/Sort.antt =====
-- `slice::sort_by` and `Vec::dedup_by` of the standard library, for a comparison function.
mod Defs
mod Order
mod Dedup
unfoldable pub use Defs.{insert_by, sort_by, dedup_after, dedup_by}
pub use Defs.{IsOrder, IsSorted, IsAscending}
pub use Order.*
pub use Dedup.*
unfoldable pub use Dedup.{dedup_by_key}

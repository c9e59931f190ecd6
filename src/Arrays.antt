-- ===== src/Arrays.antt =====
-- pg_mimic/arrays.py: nested lists of texts as PostgreSQL arrays, in the text and the binary format.
-- A text is the list of its code points; an element is `none` for NULL.
mod Defs
pub mod Shape
pub mod Literal
pub mod Binary
pub use Defs.{Value, Values, scalar, list, no_values, value, Element, is_list, count_values}

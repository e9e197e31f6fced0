-- ===== src/Json.antt =====
-- support/json.hpp: the JSON value `lins::json::object`.
-- `Value` has its data and its tag, `Object` the operations that look at the tag, `Member` those
-- on keys, `Element` those on indices, `Print` the serializer, `Translate` and `Deserializer` the
-- two ways to read a text.
pub mod Real
pub mod Value
pub mod Object
pub mod Member
pub mod Element
pub mod Print
pub mod Translate
pub mod Documents
pub mod Flags
pub mod FlagsText
pub mod Token
pub mod Deserializer

-- ===== src/Json.antt =====
-- include/handlers/json_handler.h and src/handlers/json_handler.cpp: JSON values, their parser, their
-- printer and the API's response bodies. `double` and its conversions are a parameter.
pub mod Value
pub mod Print
pub mod Parse
pub mod ParseSteps
pub mod Responses
pub mod Pieces
pub mod Reading
pub mod ResponsesRead
pub mod RoundTrip
pub mod WholeNumbers
pub mod Escaping
pub mod NumberText
pub mod Objects
pub mod Ordered
pub mod Termination
mod Tests

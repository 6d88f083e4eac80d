-- ===== src/Go.antt =====
-- What the program uses of the Go language and its standard library: strings as bytes, decimal
-- conversion, calendar dates, and the interface through which 64-bit floats enter the model.
pub mod Bytes
pub mod Strconv
pub mod Time
pub mod Encoding
pub mod Os
pub mod Http
pub mod Float

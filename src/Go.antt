-- ===== src/Go.antt =====
-- What the program uses of Go's standard library: results with an error, `strings`, `strconv` and
-- `path/filepath`, over byte texts. Case and white space are those of ASCII, which is what sysfs,
-- PCI addresses and resource names are written in. The file system itself is a parameter (`Host`).
pub mod Result
pub mod Int
pub mod Strings
pub mod Strconv
pub mod Filepath
pub mod Host
mod Samples

-- ===== src/Crates.antt =====
-- The third-party crates that the code calls. None of them is part of the repository, so each is a
-- record of the calls in use, with the documented behaviour that the code relies on as its laws.
-- A panic of such a call is `none`.
pub mod Buf
pub mod Uint
pub mod ArrayVec
pub mod Roaring
pub mod Keccak
pub mod Rlp
pub mod Derive
pub mod Strings
pub mod Mdbx
pub mod Cbor
pub mod Stand
pub use Buf.*
pub use Uint.*
pub use ArrayVec.*
pub use Keccak.*
pub use Rlp.*
pub use Mdbx.*
pub use Cbor.*
pub use Roaring.*

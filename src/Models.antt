-- ===== src/Models.antt =====
-- src/models/*.h and src/common/ErrorCode.h: the plain data that the parts exchange.
pub mod ErrCode
pub mod Json
pub mod Result
pub mod Order
pub mod Payment
pub mod Account

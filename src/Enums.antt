-- ===== src/Enums.antt =====
-- libs/veripay_common/veripay_common/enums.py: the enums that the services share. A `StrEnum` is a
-- data type; two enums may share a member's name, and `T.c` names one.
pub mod Risk
pub mod Payment
pub mod Token
pub mod Dispute
pub mod Trust

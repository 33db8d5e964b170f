-- ===== src/Storage/Dao.antt =====
-- ChatServer/MysqlDao.cpp and GateServer/MysqlDao.cpp: the functions that change tables in a
-- transaction, and those that read page by page.
pub mod AddFriend
pub mod RegUser
pub mod PrivateChat
pub mod ChatMsg
pub mod Paging

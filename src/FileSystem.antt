-- ===== src/FileSystem.antt =====
-- fs/: files on a disk, block by block.
pub mod BlockBitmap
pub mod Bytes
pub mod Disk
mod Examples
pub mod Free
pub mod Freeing
pub mod Getting
pub mod Indirect
pub mod Inode
pub mod Loading
pub mod Mount
pub mod Mounting
pub mod Number
pub mod Numbers
pub mod Open
pub mod Opening
pub mod Outcome
pub mod Output
pub mod Owning
pub mod Partition
pub mod Path
pub mod PathName
pub mod Position
pub mod Reading
pub mod Removal
pub mod Round
pub mod Rounds
pub mod Synced
pub mod Write
pub mod Writing
pub mod Written

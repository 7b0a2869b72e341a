-- ===== src/Camera.antt =====
-- shim/camera/CameraMetadata.cpp and its header: an owner of a camera_metadata_t block.
pub mod Library
pub mod Object
pub mod Update
pub mod Calls
pub mod Methods
pub mod Lock
pub mod Locked
pub mod Blocks
pub mod Ownership
pub mod Resize
pub mod Parcel
pub mod Transfer
pub mod Receive
pub mod Custody
pub mod Exchange
pub mod Guards
pub mod Typed
pub mod TypedRuns
pub mod Maps
pub mod View
pub mod Succeed
pub mod Outcomes
pub mod Frame
pub mod Copies
pub mod Observe
pub mod Refine
pub mod Pair
pub mod Moves
pub mod Joint
mod Model
mod Dictionary
mod TwoTypes
mod Tests

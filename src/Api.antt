-- ===== src/Api.antt =====
-- src/api_v1.c, src/api.c and the request types of src/include/api_types.h.
pub mod Loop
pub mod Requests
pub mod Arrays
pub mod Answer
pub mod Bodies
pub mod Handlers
pub mod Routes

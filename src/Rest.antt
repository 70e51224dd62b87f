-- ===== src/Rest.antt =====
-- src/RestApi.cpp, RestApi.hpp, Serialization.cpp, Serialization.hpp and Urls.cpp: the requests to
-- the platform. libcurl, nlohmann's JSON and the clock are parameters; each call is a function of
-- the state it finds to an outcome and the state it leaves.
pub mod Types
pub mod Network
pub mod Json
pub mod Retry
pub mod Curl
pub mod Auth
pub mod Calls
pub mod Checks

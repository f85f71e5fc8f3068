-- ===== src/AwsLambda.antt =====
-- extensions/aws_lambda: the signing filter and its parts.
pub mod Gmtime
pub mod Hex
pub mod Platform
pub mod Authenticator
pub mod Filter
mod Instances
mod Tests

-- ===== src/Connect.antt =====
-- The names of connectrpc.com/connect that the repository's code refers to: the error codes, and an
-- error as the program sees it.
pub data Code : Type 0 where
  canceled unknown invalid_argument deadline_exceeded : Code
  not_found already_exists permission_denied resource_exhausted : Code
  failed_precondition aborted out_of_range unimplemented : Code
  internal unavailable data_loss unauthenticated : Code

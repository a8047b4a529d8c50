-- ===== src/Prelude/Results.antt =====
-- What a C function returns that gives 0 for success and another number for failure.
pub data Status : Type 0 where
  success failure : Status

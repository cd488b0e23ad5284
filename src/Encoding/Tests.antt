-- ===== src/Encoding/Tests.antt =====
-- Runs of the encodings at small inputs.

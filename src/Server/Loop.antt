-- ===== src/Server/Loop.antt =====
-- The loop for a client ends.
use nexus_db_main.Common.{ℕ, ◌+◌, ◌≤◌, Option, none, some, length}
use nexus_db_main.Catalog.{Catalog}
use nexus_db_main.Server.Sockets.{Socket}

-- A read, if it gives something, took `n` bytes at least.
abbrev Takes : {A : Type 0} → ℕ → Socket → Option (A × Socket) → Type 0
Takes n s none = Unit
Takes n s (some (a, s₁)) = n + length s₁.incoming ≤ length s.incoming

-- ===== src/Server/Tests.antt =====
-- The server on fixed inputs.
use nexus_db_main.Common.{
  suc, List, [], ◌∷◌, ◌++◌, Bytes, true, some, none, codes, ◌≡◌, refl, arith,
}
use nexus_db_main.Common.Int.{pos}
use nexus_db_main.Common.Reads.{read_exactly}
use nexus_db_main.Encoding.{ok}
use nexus_db_main.Types.{make_int, make_text}
use nexus_db_main.Types.Floats.{Floats}
use nexus_db_main.Engine.{Answers}
use nexus_db_main.MemTable as MemTable
use nexus_db_main.Catalog.{Catalog}
use nexus_db_main.Executor.Insert.{QueryResult}
use nexus_db_main.Server.Sockets.{Socket, recv_all}
use nexus_db_main.Server.Messages.{Request}
use nexus_db_main.Server.Client.{request_bytes}
use nexus_db_main.Server.Received.{taken, recv_all-read_exactly}
use nexus_db_main.Server.Requests.{recv_request-request_bytes}
use nexus_db_main.Server.{Setting, recv_request}

abbrev no_floats : Floats
no_floats = record { stod = λ s. none; of_int = λ i. 0; to_int = λ x. pos 0; to_text = λ x. [] }

-- The connection moves one, two, three and more bytes at a time.
abbrev connection : Bytes → Socket
connection bytes = record {
  incoming = bytes;
  outgoing = [];
  received = λ i. i;
  accepted = λ i. suc i;
  calls = 0;
}

abbrev put_request : Request
put_request = record { type = 1; key = codes "k"; value = codes "v" }

recv_all-read_exactly_example :
    taken (recv_all 3 (connection (codes "abcd"))) ≡ read_exactly 3 (codes "abcd")
recv_all-read_exactly_example = recv_all-read_exactly 3 (connection (codes "abcd"))

recv_request-request_bytes_example :
    (s₁ : Socket) × (recv_request (connection (request_bytes put_request ++ codes "next"))
      ≡ some (put_request, s₁))
    × (s₁.incoming ≡ codes "next")
recv_request-request_bytes_example =
    recv_request-request_bytes put_request (codes "next")
      (connection (request_bytes put_request ++ codes "next")) (omega arith) (omega arith) refl

abbrev all_good : Answers
all_good = record {
  append_io = record { writes = 9 ∷ 100 ∷ []; synced = true };
  flush_opened = true;
  compact_opened = true;
  truncated = true;
}

abbrev empty_catalog : Catalog
empty_catalog = record {
  engine = record { log = []; memtable = MemTable.empty 1000; sstables = []; next_seq = 0 };
  cache = [];
}

abbrev setting : Setting
setting = record { floats = no_floats; sort = λ before rows. rows; answers = λ i. all_good }

abbrev two_rows : QueryResult
two_rows = record {
  status = ok;
  message = codes "2 row(s) returned.";
  column_names = codes "id" ∷ codes "name" ∷ [];
  rows =
      (make_int (pos 1) ∷ make_text (codes "a") ∷ [])
      ∷ (make_int (pos 2) ∷ make_text (codes "b") ∷ [])
      ∷ [];
}

abbrev two_entries : List (Bytes × Bytes)
two_entries = (codes "a", codes "1") ∷ (codes "b", codes "2") ∷ []

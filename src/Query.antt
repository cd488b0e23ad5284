-- ===== src/Query.antt =====
-- `class QueryParser`: include/mosaicdb/query.h and src/query/query.cpp. A stream is what is left of
-- its text.
mod Tests
use nexus_db_main.Common.{
  ℕ, suc, List, [], ◌∷◌, ◌++◌, Bytes, Bool, true, false, codes, map, ◌==◌, if◌then◌else◌,
}
use nexus_db_main.Common.Ascii.{is_space, to_upper}
use nexus_db_main.Text.{str_eq}

pub data CommandType : Type 0 where
  put get delete_cmd scan unknown : CommandType

pub record Command : Type 0 where
  pub type : CommandType
  pub key : Bytes
  pub value : Bytes
  pub end_key : Bytes

unfoldable pub skip_spaces : Bytes → Bytes
skip_spaces [] = []
skip_spaces (c ∷ cs) = elim (is_space c) [ true ↦ skip_spaces cs | false ↦ c ∷ cs ]

unfoldable pub until_space : Bytes → Bytes × Bytes
until_space [] = ([], [])
until_space (c ∷ cs) = elim (is_space c) [
  | true ↦ ([], c ∷ cs)
  | false ↦ (c ∷ (until_space cs).0, (until_space cs).1)
]

-- `stream >> word`.
abbrev pub next_word : Bytes → Bytes × Bytes
next_word stream = until_space (skip_spaces stream)

-- `std::getline`.
unfoldable pub line_of : Bytes → Bytes
line_of [] = []
line_of (c ∷ cs) = elim (c == b'\n') [ true ↦ [] | false ↦ c ∷ line_of cs ]

-- A value without the one space that may start it.
unfoldable pub without_space : Bytes → Bytes
without_space [] = []
without_space (c ∷ cs) = if c == b' ' then cs else c ∷ cs

abbrev pub command : CommandType → Bytes → Bytes → Bytes → Command
command t key value end_key = record { type = t; key = key; value = value; end_key = end_key }

unfoldable pub parse : Bytes → Command
parse input =
    let (word, stream) = next_word input in
    let op = map to_upper word in
    let (key, rest) = next_word stream in
    if str_eq op (codes "PUT")
    then command put key (without_space (line_of rest)) []
    else if str_eq op (codes "GET")
    then command get key [] []
    else if str_eq op (codes "DELETE")
    then command delete_cmd key [] []
    else if str_eq op (codes "SCAN")
    then command scan key [] (next_word rest).0
    else command unknown [] [] []

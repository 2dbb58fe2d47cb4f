-- ===== src/Tests/Packets.antt =====
-- Runs of ServerCore/Packet/SendBuffer.cpp and of the table of the packet handlers.
use asio_chat_server.Network.Dispatch.{table_entry}
use asio_chat_server.Network.Dispatch.Table.{Entry, table_entry-Entry}
use asio_chat_server.Common.{◌≡◌, none, some, List, [], ◌∷◌, arith}
use asio_chat_server.ServerCore.SendBuffer.{SendBuffer, make_all}
use asio_chat_server.ServerCore.SendBuffer.Slices.{Laid, make_all-disjoint}

-- The third packet does not fit the first chunk.
make_all-disjoint_example :
    (bs : List SendBuffer) × (make_all
        (100 ∷ 5000 ∷ 2000 ∷ [])
        (record { current = none; popped = 0 })
      ≡ some bs)
    × Laid (100 ∷ 5000 ∷ 2000 ∷ []) bs
make_all-disjoint_example = make_all-disjoint (100 ∷ 5000 ∷ 2000 ∷ []) (omega arith)

table_entry-Entry_example : Entry 65535 (table_entry 65535)
table_entry-Entry_example = table_entry-Entry 65535

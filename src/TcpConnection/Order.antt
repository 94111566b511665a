-- ===== src/TcpConnection/Order.antt =====
-- The order in which the writes of a connection begin.
use rsp.Base.{List, [], ◌∷◌, ◌++◌, if◌then◌else◌, Bytes, length}
use rsp.TcpConnection.{Connection, reserve_send_bytes}
use rsp.TcpConnection.Budget.{Event, sends, step}

-- Whether the limit lets a message be sent, which is then to be written.
abbrev pub accepted : Event → Connection → List Bytes
accepted (sends failed on_strand msg) c =
    if (reserve_send_bytes (length msg) c).0 then msg ∷ [] else []
accepted e c = []

abbrev pub all_accepted : List Event → Connection → List Bytes
all_accepted [] c = []
all_accepted (e ∷ es) c = accepted e c ++ all_accepted es (step c e).1

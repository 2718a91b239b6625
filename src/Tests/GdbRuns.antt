-- ===== src/Tests/GdbRuns.antt =====
-- Runs of the GDB client.
use rteget_data_linux_compat.Gdb.Memory.{gdb_read_memory, gdb_write_memory}
use rteget_data_linux_compat.Gdb.Memory.Complete.{gdb_read_memory-ok}
use rteget_data_linux_compat.Gdb.Memory.Read.{Reads, Serves, gdb_read_memory-Serves, last, more}
use rteget_data_linux_compat.Gdb.Memory.Write.{
  Acknowledges, Writes, final, further, gdb_write_memory-Acknowledges,
}
use rteget_data_linux_compat.Gdb.Message.{gdb_get_message}
use rteget_data_linux_compat.Gdb.Message.Limits.{InBuffer, gdb_get_message-InBuffer}
use rteget_data_linux_compat.Gdb.Message.Receive.{IsMessage, gdb_get_message-received, received}
use rteget_data_linux_compat.Gdb.Message.Silence.{silence, time_limit}
use rteget_data_linux_compat.Gdb.Packet.{
  check_reply, copy_hex, hex_bytes, read_memory_packet, read_request, sum_bytes, write_request,
}
use rteget_data_linux_compat.Gdb.Packet.Exchange.{exchanged, read_memory_packet-reply}
use rteget_data_linux_compat.Gdb.Packet.Reply.{check_reply-reply, reply}
use rteget_data_linux_compat.Gdb.Packet.Sound.{check_reply-ok}
use rteget_data_linux_compat.Gdb.Packet.Written.{copy_hex-hex_bytes, ok_answer}
use rteget_data_linux_compat.Gdb.Sizes.{calculate_max_message_sizes}
use rteget_data_linux_compat.Gdb.Sizes.Bounds.{
  FitsRead, FitsWrite, calculate_max_message_sizes_fit, small_server_refuses_writes,
}
use rteget_data_linux_compat.Hex.{get_hex_digit}
use rteget_data_linux_compat.Prelude.{
  All, IsByte, List, [], add32, arith, codes, drop, false, inl, length, next, none, peek, refl,
  some, strchr, suc, true, ℕ, ◌++◌, ◌/◌, ◌∷◌, ◌≡◌, ◌≤◌,
}
use rteget_data_linux_compat.State.{
  RecvEvent, State, bad_input_data, error, no_error, ok, tcp_buff_length,
}
use rteget_data_linux_compat.Tests.{comes, fresh, fresh_gdb, reading}

abbrev block : List ℕ
block = 0x12 ∷ 0xEF ∷ 0x7 ∷ []

-- The block in two packets.
abbrev packets : List RecvEvent
packets = comes (reply false (0x12 ∷ 0xEF ∷ [])) ∷ comes (reply false (0x7 ∷ [])) ∷ []

abbrev base : ℕ
base = 0x20000000

abbrev requests : List (List ℕ)
requests = read_request (add32 base 0) 2 ∷ read_request (add32 base 2) 1 ∷ []

served : Serves base 2 [] 0 block packets requests
served =
    more 0 (0x12 ∷ 0xEF ∷ []) (0x7 ∷ []) block 20 (comes (reply false (0x7 ∷ [])) ∷ [])
      (read_request (add32 base 2) 1 ∷ []) refl refl (omega arith) (omega arith)
      (last 2 (0x7 ∷ []) 20 (omega arith) (omega arith))

block-IsByte : All IsByte block
block-IsByte = (omega arith, (omega arith, (omega arith, tt)))

gdb_read_memory-Serves_example :
    Reads (gdb_read_memory base 3 (reading 2 packets)) block requests [] (reading 2 packets)
gdb_read_memory-Serves_example =
    gdb_read_memory-Serves (reading 2 packets) served (omega arith) block-IsByte
      (record { accepts = refl; quiet = refl; comes = refl; packet = refl })

read_block : (gdb_read_memory base 3 (reading 2 packets)).0 ≡ (ok, block)
read_block = gdb_read_memory-Serves_example.0

gdb_read_memory-ok_example : (length block ≡ 3) × All IsByte block
gdb_read_memory-ok_example = gdb_read_memory-ok base 3 (reading 2 packets) block read_block

read_memory_packet-reply_example :
    read_memory_packet base 3 (reading 2 (comes (reply false block) ∷ [])) ≡ (
      (ok, block),
      exchanged
          (read_request base 3)
          (reply false block)
          20
          []
          (reading 2 (comes (reply false block) ∷ [])),
    )
read_memory_packet-reply_example =
    read_memory_packet-reply block base 20 [] (reading 2 (comes (reply false block) ∷ []))
      block-IsByte (omega arith) (omega arith)
      (record { accepts = refl; quiet = refl; comes = refl })

check_reply-reply_example : check_reply 3 (reply true block ++ (0 ∷ 1 ∷ [])) ≡ (ok, block, no_error)
check_reply-reply_example = check_reply-reply true block (1 ∷ []) block-IsByte

check_reply-ok_example :
    (strchr b'*' (reply true block ++ (0 ∷ [])) ≡ none)
    × (peek (drop 7 (reply true block ++ (0 ∷ []))) ≡ b'#')
    × (get_hex_digit (drop 8 (reply true block ++ (0 ∷ [])))
        ≡ some (sum_bytes 6 (next (reply true block ++ (0 ∷ []))) 0))
    × (length block ≡ 3)
    × All IsByte block
check_reply-ok_example =
    check_reply-ok 3 (reply true block ++ (0 ∷ [])) block no_error
      (check_reply-reply true block [] block-IsByte)

abbrev ok_message : List ℕ
ok_message = codes "$OK#9a"

ok_message-IsMessage : IsMessage ok_message
ok_message-IsMessage = record { long_enough = omega arith; fits = omega arith; hash = refl }

gdb_get_message-received_example :
    gdb_get_message 0 (reading 2 (comes ok_message ∷ []))
    ≡ (ok, received ok_message 20 [] (reading 2 (comes ok_message ∷ [])))
gdb_get_message-received_example =
    gdb_get_message-received (reading 2 (comes ok_message ∷ [])) ok_message 0 20 []
      ok_message-IsMessage refl refl

gdb_get_message-InBuffer_example :
    InBuffer (gdb_get_message 0 (reading 2 (comes ok_message ∷ []))).1
gdb_get_message-InBuffer_example =
    gdb_get_message-InBuffer 0 (reading 2 (comes ok_message ∷ [])) (omega arith)

abbrev announced : ℕ → State
announced n = record fresh { gdb = record fresh_gdb { max_gdb_send_message_size = n } }

calculate_max_message_sizes_fit_example :
    FitsRead
      (calculate_max_message_sizes (announced 4096)).1.gdb.max_memo_read_packet_size
      (calculate_max_message_sizes (announced 4096)).1.gdb.max_gdb_recv_message_size
    × FitsWrite
        (calculate_max_message_sizes (announced 4096)).1.gdb.max_memo_write_packet_size
        (calculate_max_message_sizes (announced 4096)).1.gdb.max_gdb_send_message_size
    × ((calculate_max_message_sizes (announced 4096)).1.gdb.max_gdb_recv_message_size
        ≤ tcp_buff_length)
calculate_max_message_sizes_fit_example =
    calculate_max_message_sizes_fit (announced 4096) (omega arith) (inl refl)

small_server_refuses_writes_example :
    gdb_write_memory block base 3 (calculate_max_message_sizes (announced 24)).1
    ≡ (error, record (calculate_max_message_sizes (announced 24)).1 { last_error = bad_input_data })
small_server_refuses_writes_example =
    small_server_refuses_writes (announced 24) block base 3 (omega arith) (omega arith)

-- Three bytes in two write packets.
abbrev writing : State
writing = record fresh {
  gdb = record fresh_gdb {
    recv_events = comes ok_answer ∷ comes ok_answer ∷ [];
    max_memo_write_packet_size = 2;
  };
}

abbrev write_requests : List (List ℕ)
write_requests =
    write_request (drop 0 block) (add32 base 0) 2
    ∷ write_request (drop 2 block) (add32 base 2) 1
    ∷ []

acknowledged :
    Acknowledges block base 2 [] 0 3 (comes ok_answer ∷ comes ok_answer ∷ []) write_requests
acknowledged =
    further 0 1 20 (comes ok_answer ∷ []) (write_request (drop 2 block) (add32 base 2) 1 ∷ [])
      (omega arith) (omega arith) (final 2 1 20 (omega arith) (omega arith))

gdb_write_memory-Acknowledges_example :
    Writes (gdb_write_memory block base 3 writing) write_requests [] writing
gdb_write_memory-Acknowledges_example =
    gdb_write_memory-Acknowledges writing acknowledged (omega arith)
      (record { accepts = refl; quiet = refl; comes = refl; packet = refl })

copy_hex-hex_bytes_example : copy_hex 2 (hex_bytes 2 block ++ (b'#' ∷ [])) ≡ (ok, 0x12 ∷ 0xEF ∷ [])
copy_hex-hex_bytes_example = copy_hex-hex_bytes 2 block (b'#' ∷ []) (omega arith) block-IsByte

-- Three calls that wait for 200 milliseconds, and then a message that comes too late.
abbrev silent : State
silent = reading 2 (silence (suc (time_limit 0 / 200)) 200 (comes ok_message ∷ []))

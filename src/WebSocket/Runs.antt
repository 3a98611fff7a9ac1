-- ===== src/WebSocket/Runs.antt =====
-- Runs of the frame writer and the theorems at concrete inputs.
use tg_ws_keenetic.Base.{true, ◌≡◌, refl, some, List, [], ◌∷◌, ◌++◌, arith, ok}
use tg_ws_keenetic.Base.Bytes.{Bytes}
use tg_ws_keenetic.Memory.{kept, text, exact}
use tg_ws_keenetic.WebSocket.Writer.{control}
use tg_ws_keenetic.WebSocket.Reader.{WsReader, new_reader, chunk}
use tg_ws_keenetic.WebSocket.Messages.{Given, chunk-Given}
use tg_ws_keenetic.WebSocket.Writer.{WsWriter, begin, payload, then_payload}
use tg_ws_keenetic.WebSocket.Frames.{read_frame, frame, read_frame-frame}
use tg_ws_keenetic.WebSocket.Written.{joined, write_parts, write_parts-begin}

abbrev a_mask : Bytes
a_mask = 1 ∷ 2 ∷ 3 ∷ 4 ∷ []

abbrev idle_writer : WsWriter
idle_writer = record { remaining = 0; mask = 0 ∷ 0 ∷ 0 ∷ 0 ∷ []; offset = 0 }

abbrev after_frame : WsWriter
after_frame = record { remaining = 0; mask = a_mask; offset = 5 }

abbrev two_parts : List Bytes
two_parts = (10 ∷ 11 ∷ 12 ∷ []) ∷ (13 ∷ 14 ∷ []) ∷ []

two_parts_written :
    write_parts kept two_parts (begin kept a_mask 2 5 idle_writer [])
    ≡ (ok tt, after_frame, 0x82 ∷ 0x85 ∷ 1 ∷ 2 ∷ 3 ∷ 4 ∷ 11 ∷ 9 ∷ 15 ∷ 9 ∷ 15 ∷ [])
unfolding write_parts begin then_payload payload
two_parts_written = refl

write_parts-begin_example :
    ((0x82 ∷ 0x85 ∷ 1 ∷ 2 ∷ 3 ∷ 4 ∷ 11 ∷ 9 ∷ 15 ∷ 9 ∷ 15 ∷ [])
      ≡ [] ++ frame 2 a_mask (joined two_parts))
    × (after_frame.remaining ≡ 0)
write_parts-begin_example =
    write_parts-begin kept a_mask 2 two_parts idle_writer after_frame []
      (0x82 ∷ 0x85 ∷ 1 ∷ 2 ∷ 3 ∷ 4 ∷ 11 ∷ 9 ∷ 15 ∷ 9 ∷ 15 ∷ []) two_parts_written

read_frame-frame_example :
    read_frame (frame 2 a_mask (joined two_parts) ++ (9 ∷ [])) ≡ some (2, joined two_parts, 9 ∷ [])
read_frame-frame_example =
    read_frame-frame 2 a_mask (joined two_parts) (9 ∷ []) (omega arith) refl (omega arith)

-- Two bytes of a frame are left, and three are offered.
abbrev in_frame : WsWriter
in_frame = record { remaining = 2; mask = a_mask; offset = 3 }

-- A ping, and the first fragment of a message.
abbrev ping_and_data : Bytes
ping_and_data = 0x89 ∷ 1 ∷ 7 ∷ 0x02 ∷ 3 ∷ 21 ∷ 22 ∷ 23 ∷ []

abbrev within : WsReader
within = record { remaining = 1; fragmented = true; message_len = 3 }

-- The ping is answered, and the data comes as far as there is room for it.
first_chunk : chunk text kept (λ n. a_mask) true 2 new_reader ping_and_data (idle_writer, []) ≡ (
  some (ok (21 ∷ 22 ∷ [])),
  within,
  23 ∷ [],
  (record { remaining = 0; mask = a_mask; offset = 1 }, 0x8a ∷ 0x81 ∷ 1 ∷ 2 ∷ 3 ∷ 4 ∷ 6 ∷ []),
)
unfolding chunk exact control payload
first_chunk = refl

chunk-Given_example :
    Given text kept 2 ping_and_data
      (chunk text kept (λ n. a_mask) true 2 new_reader ping_and_data (idle_writer, []))
chunk-Given_example =
    chunk-Given text kept 2 (λ n. a_mask) true new_reader ping_and_data (idle_writer, [])
      (omega arith, omega arith)

-- ===== src/Wire/Messages.antt =====
-- The constructors of `Message` in node-bc-store/src/protocol.rs. A text is the list of its bytes.
use omega_fusion_core_proxmo.Prelude.{ℕ, Option, none, some, List, [], ◌==◌, if◌then◌else◌, length}
use omega_fusion_core_proxmo.Wire.{Opcode, Message, message, page_size}

abbrev pub ping_message : Message
ping_message = message Opcode.ping 0 0 []

abbrev pub pong_message : Message
pong_message = message Opcode.pong 0 0 []

abbrev pub ok_reply : ℕ → ℕ → Message
ok_reply vm page = message Opcode.ok vm page []

abbrev pub not_found_reply : ℕ → ℕ → Message
not_found_reply vm page = message Opcode.not_found vm page []

abbrev pub error_msg : List ℕ → Message
error_msg detail = message Opcode.error 0 0 detail

-- `none` where `assert_eq!` panics.
unfoldable pub put_page_request : ℕ → ℕ → List ℕ → Option Message
put_page_request vm page bytes =
    if length bytes == page_size then some (message Opcode.put_page vm page bytes) else none

abbrev pub get_page_request : ℕ → ℕ → Message
get_page_request vm page = message Opcode.get_page vm page []

abbrev pub delete_page_request : ℕ → ℕ → Message
delete_page_request vm page = message Opcode.delete_page vm page []

abbrev pub stats_message : Message
stats_message = message Opcode.stats_request 0 0 []

abbrev pub stats_reply : List ℕ → Message
stats_reply json = message Opcode.stats_response 0 0 json

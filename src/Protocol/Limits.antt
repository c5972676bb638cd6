-- ===== src/Protocol/Limits.antt =====
-- protocol/limits.ts: the constants of the wire format and the caps of a session.
use fuck_chat_control.Base.{ℕ}

abbrev pub protocol_version : ℕ
protocol_version = 0x01

abbrev pub transcript_version : ℕ
transcript_version = 0x01

abbrev pub conversation_id_bytes : ℕ
conversation_id_bytes = 16

abbrev pub session_id_bytes : ℕ
session_id_bytes = 32

abbrev pub public_key_bytes : ℕ
public_key_bytes = 65

abbrev pub signature_bytes : ℕ
signature_bytes = 64

abbrev pub sec1_uncompressed_prefix : ℕ
sec1_uncompressed_prefix = 0x04

abbrev pub gcm_nonce_bytes : ℕ
gcm_nonce_bytes = 12

abbrev pub gcm_tag_bytes : ℕ
gcm_tag_bytes = 16

abbrev pub uint32_max : ℕ
uint32_max = 0xffffffff

abbrev pub max_text_frame_bytes : ℕ
max_text_frame_bytes = 16384

abbrev pub max_chunk_bytes : ℕ
max_chunk_bytes = 16384

abbrev pub max_concurrent_transfers : ℕ
max_concurrent_transfers = 4

abbrev pub max_incomplete_transfer_bytes : ℕ
max_incomplete_transfer_bytes = 67108864

abbrev pub replay_window_sequences : ℕ
replay_window_sequences = 1024

abbrev pub frame_header_bytes : ℕ
frame_header_bytes = 50

abbrev pub frame_aad_bytes : ℕ
frame_aad_bytes = 46

abbrev pub default_max_group_members : ℕ
default_max_group_members = 8

abbrev pub max_group_members_hard : ℕ
max_group_members_hard = 16

abbrev pub max_member_display_name : ℕ
max_member_display_name = 32
